-- ===== src/Stdio.antt =====
-- kernel_stdio.c: formatted output. `memory` is the address space, for strings, and `args` the words
-- behind the format on the stack, of 32 bits each. An `int` that overflows is taken to wrap: the
-- width, and the negation of -2^31, which leaves it as it is.
pub mod Text
pub mod Console
pub mod Numbers
pub mod Format
pub mod Printf
pub mod Bounds
pub mod Inside
pub mod RoundTrip
use almost_os.Prelude.{
  ℕ, zero, suc, ◌+◌, ◌-◌, ◌*◌, ◌/◌, ◌%◌, Bool, true, false, not, ◌&&◌, ◌||◌, Option, none, some,
  List, [], ◌∷◌, Bytes, store, ltb, leb, ◌==◌, if◌then◌else◌, u8, u32,
}
use almost_os.Prelude.Int.{ℤ, pos, negsuc, rounds}
use almost_os.Prelude.Maybe.{option_map}

-- The buffer of `kernel_printf` and the index of its end.
pub record Output : Type 0 where
  pub buffer : Bytes
  pub buf_i : ℕ

-- `buffer[buf_i++] = c`
abbrev pub put : Output → ℕ → Output
put o c = record { buffer = store o.buffer o.buf_i c; buf_i = o.buf_i + 1 }

-- `sizeof(numbuf)`
abbrev pub numbuf_size : ℕ
numbuf_size = 16

-- `sizeof(buffer)`
abbrev pub buffer_size : ℕ
buffer_size = 256

-- The `do` loop of `print_decimal` and `print_hex`, with `n` places left in `numbuf`.
unfoldable pub number_digits : ℕ → ℕ → (ℕ → ℕ) → ℕ → Bytes → ℕ → Bytes × ℕ
number_digits zero base digit val numbuf num_i = (numbuf, num_i)
number_digits (suc n) base digit val numbuf num_i =
    let numbuf' = store numbuf num_i (digit (val % base)) in
    let rest = number_digits n base digit (val / base) numbuf' (num_i + 1) in
    if not (val / base == 0) && ltb (num_i + 1) numbuf_size then rest else (numbuf', num_i + 1)

-- The loop that writes zeros before a number.
unfoldable pub print_padding : ℕ → ℕ → Output → Output
print_padding maxlen zero o = o
print_padding maxlen (suc padding) o =
    let rest = print_padding maxlen padding (put o 48) in
    if ltb o.buf_i (maxlen - 1) then rest else o

-- The loop that writes the digits, the last of `numbuf` first.
unfoldable pub print_reversed : ℕ → Bytes → ℕ → Output → Output
print_reversed maxlen numbuf zero o = o
print_reversed maxlen numbuf (suc num_i) o =
    let rest = print_reversed maxlen numbuf num_i (put o (numbuf num_i)) in
    if ltb o.buf_i (maxlen - 1) then rest else o

-- `'0' + digit`
abbrev pub decimal_digit : ℕ → ℕ
decimal_digit d = 48 + d

-- `'0' + val % 10` after `val = -val`, for the value -(n + 1). Only -2^31 is still negative then, and
-- its remainders are too.
abbrev pub negated_digit : ℕ → ℕ → ℕ
negated_digit n d = if n == 2147483647 then 48 - d else decimal_digit d

-- The digit of `print_hex`, in upper or lower case.
abbrev pub hex_digit : Bool → ℕ → ℕ
hex_digit uppercase d = if ltb d 10 then 48 + d else if uppercase then 65 + d - 10 else 97 + d - 10

-- `print_decimal`; `numbuf` is what its local buffer holds at first.
unfoldable pub print_decimal : ℤ → Bytes → Output → ℕ → ℕ → Bool → Output
print_decimal (pos val) numbuf o maxlen width zero_pad =
    let (numbuf', num_i) = number_digits numbuf_size 10 decimal_digit val numbuf 0 in
    let padded =
      if zero_pad && ltb num_i width then print_padding maxlen (width - num_i) o else o in
    print_reversed maxlen numbuf' num_i padded
print_decimal (negsuc n) numbuf o maxlen width zero_pad =
    let (numbuf', num_i) = number_digits numbuf_size 10 (negated_digit n) (n + 1) numbuf 0 in
    let signed = if ltb o.buf_i (maxlen - 1) then put o 45 else o in
    print_reversed maxlen numbuf' num_i signed

-- `print_hex`
unfoldable pub print_hex : ℕ → Bytes → Output → ℕ → ℕ → Bool → Bool → Output
print_hex val numbuf o maxlen width zero_pad uppercase =
    let (numbuf', num_i) = number_digits numbuf_size 16 (hex_digit uppercase) val numbuf 0 in
    let padded =
      if zero_pad && ltb num_i width then print_padding maxlen (width - num_i) o else o in
    print_reversed maxlen numbuf' num_i padded

-- The loop of `%s` from address `str`: each of its `n` rounds fills a place of the buffer.
unfoldable pub print_string : ℕ → Bytes → ℕ → Output → Output
print_string zero memory str o = o
print_string (suc n) memory str o =
    let rest = print_string n memory (str + 1) (put o (memory str)) in
    if not (memory str == 0) && ltb o.buf_i (buffer_size - 1) then rest else o

-- `(int)` of a word
abbrev pub signed32 : ℕ → ℤ
signed32 w = if ltb w 2147483648 then pos w else negsuc (4294967296 - w - 1)

-- An unknown directive is printed as it stands.
abbrev pub print_unknown : ℕ → Output → Output
print_unknown c o = if not (c == 0) && ltb o.buf_i (buffer_size - 1) then put o c else o

-- The directive with letter `c`, and the index of the next argument.
unfoldable pub print_directive : Bytes → (ℕ → ℕ) → Bytes → ℕ → ℕ → Bool → ℕ → Output → Output × ℕ
print_directive memory args numbuf c width zero_pad arg_index o =
    let arg = args arg_index in
    if c == 115
    then (if arg == 0 then o else print_string (buffer_size - 1) memory arg o, arg_index + 1)
    else if c == 100
    then (print_decimal (signed32 arg) numbuf o buffer_size width zero_pad, arg_index + 1)
    else if c == 120
    then (print_hex arg numbuf o buffer_size width zero_pad false, arg_index + 1)
    else if c == 88
    then (print_hex arg numbuf o buffer_size width zero_pad true, arg_index + 1)
    else if c == 99
    then (put o (u8 arg), arg_index + 1)
    else (print_unknown c (put o 37), arg_index)

-- The loop that reads a width from index `i` on: the width and the index behind it. The width is a
-- word; as an `int` below 0 it pads as 0 does.
unfoldable pub parse_width : ℕ → Bytes → ℕ → ℕ → Option (ℕ × ℕ)
parse_width zero format i width = none
parse_width (suc fuel) format i width =
    let rest = parse_width fuel format (i + 1) (u32 (width * 10 + (format i - 48))) in
    if leb 48 (format i) && leb (format i) 57 then rest else some (rounds (signed32 width), i)

-- The index behind a `0` flag at index `i`, if there is one.
abbrev pub after_flag : Bytes → ℕ → ℕ
after_flag format i = if format i == 48 then i + 1 else i

-- The loop of `kernel_printf` from index `i` of the format; `none` where the fuel runs out.
unfoldable pub print_from : ℕ → Bytes → Bytes → (ℕ → ℕ) → Bytes → ℕ → ℕ → Output → Option Output
print_from zero format memory args numbuf i arg_index o = none
print_from (suc fuel) format memory args numbuf i arg_index o =
    let literal = print_from fuel format memory args numbuf (i + 1) arg_index (put o (format i)) in
    let directive : Option Output = elim (parse_width fuel format (after_flag format (i + 1)) 0) [
      | none ↦ none
      | some (width, k) ↦
          let (o', next) =
            print_directive memory args numbuf (format k) width (format (i + 1) == 48) arg_index
              o in
          print_from fuel format memory args numbuf (k + 1) next o'
    ] in
    if format i == 0 || leb (buffer_size - 1) o.buf_i
    then some o
    else if format i == 37
    then directive
    else literal

-- `kernel_printf` up to the call of `kernel_print`: the buffer that it prints.
unfoldable pub kernel_printf : ℕ → Bytes → Bytes → (ℕ → ℕ) → Bytes → Bytes → Option Bytes
kernel_printf fuel format memory args buffer numbuf =
    option_map (λ o. store o.buffer o.buf_i 0)
      (print_from fuel format memory args numbuf 0 0 (record { buffer = buffer; buf_i = 0 }))
