-- ===== src/Util/Numbers.antt =====
-- utils/util.c: numbers to text and back. A `long int` has 32 bits; its values are given as
-- words, and a character is one of 0 to 255.
pub mod RoundTrip
use almost_os.Prelude.{
  ℕ, zero, suc, Bool, ◌+◌, ◌-◌, ◌*◌, ◌/◌, ◌%◌, true, false, Option, none, some, Bytes, store, ltb,
  leb, ◌&&◌, if◌then◌else◌, u8, u32,
}
use almost_os.Util.Strings.{strlen_unsafe}

-- `byte_to_hexchar`
unfoldable pub byte_to_hexchar : ℕ → ℕ
byte_to_hexchar byte = if ltb 15 byte then 0 else if ltb byte 10 then 48 + byte else 65 + byte - 10

-- The value of a hexadecimal digit in `hex_to_long`.
unfoldable pub hex_value : ℕ → Option ℕ
hex_value chr =
    if leb 48 chr && leb chr 57
    then some (chr - 48)
    else if leb 97 chr && leb chr 102
    then some (chr - 97 + 10)
    else if leb 65 chr && leb chr 70
    then some (chr - 65 + 10)
    else none

-- The loop of `hex_to_long`, from the character before offset `index` down to the first.
unfoldable pub hex_from : ℕ → Bytes → ℕ → ℕ → ℕ
hex_from zero str result multiplier = result
hex_from (suc index) str result multiplier = elim (hex_value (str index)) [
  | none ↦ hex_from index str result multiplier
  | some chr_value ↦
      hex_from index str (u32 (result + chr_value * multiplier)) (u32 (multiplier * 16))
]

-- `hex_to_long`
unfoldable pub hex_to_long : Option Bytes → ℕ
hex_to_long none = 0
hex_to_long (some str) = hex_from (strlen_unsafe (some str)) str 0 1

-- `reminder`, an `unsigned char`, for the remainder `r` of a number's magnitude: it is negative where
-- the number is.
abbrev pub reminder : Bool → ℕ → ℕ
reminder negative r = if negative then u8 (256 - r) else u8 r

-- The loop of `long_to_hex`, which fills the buffer from its end, for the magnitude of a number and a
-- base of at least 1; with what is left of the magnitude.
unfoldable pub digits_from : ℕ → Bool → ℕ → Bytes → ℕ → Bytes × ℕ
digits_from zero negative number string_buffer base = (string_buffer, number)
digits_from (suc index) negative number string_buffer base =
    digits_from index negative (number / base)
      (store string_buffer index (byte_to_hexchar (reminder negative (number % base)))) base

-- `long_to_hex` of a word, which is a signed number; the error message tells whether the number did
-- not fit.
abbrev pub long_to_hex : ℕ → Bytes → ℕ → ℕ → Bytes × ℕ
long_to_hex number string_buffer string_buffer_len base =
    if ltb number 2147483648
    then digits_from string_buffer_len false number string_buffer base
    else digits_from string_buffer_len true (4294967296 - number) string_buffer base

-- The loop of `atoi`, from the character before offset `index` down to the first.
unfoldable pub decimal_from : ℕ → Bytes → ℕ → ℕ → ℕ
decimal_from zero str result multiplier = result
decimal_from (suc index) str result multiplier = elim (leb 48 (str index) && leb (str index) 57) [
  | false ↦ decimal_from index str result multiplier
  | true ↦
      decimal_from index str (u32 (result + (str index - 48) * multiplier)) (u32 (multiplier * 10))
]

-- `atoi`
unfoldable pub atoi : Option Bytes → ℕ
atoi none = 0
atoi (some str) = decimal_from (strlen_unsafe (some str)) str 0 1
