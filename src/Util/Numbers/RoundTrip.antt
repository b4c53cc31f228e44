-- ===== src/Util/Numbers/RoundTrip.antt =====
-- utils/util.c: `long_to_hex` and `hex_to_long`.
use almost_os.Prelude.{
  ℕ, zero, suc, ◌+◌, ◌-◌, ◌*◌, ◌/◌, ◌%◌, ◌^◌, ◌<◌, ◌≤◌, ◌≡◌, refl, sym, ap, ◌∙◌, none, some, Bytes,
  store, arith, u8, u32, store_self, store-ne, ◌≢◌, ◌⊎◌, inl, inr, ℕ_discrete, Bool, true, false,
  ltb,
}
use mathlib.Core.Path.{subst}
use native.Mathlib.Nat.{div-add-mod, pow-succ', mul-le-mul_right}
use almost_os.Util.Strings.{strlen_unsafe_lem}
use almost_os.Util.Numbers.{
  byte_to_hexchar, hex_value, hex_from, hex_to_long, digits_from, long_to_hex,
}

hex_value-byte_to_hexchar : (v : ℕ) → v < 16 → hex_value (byte_to_hexchar v) ≡ some v
unfolding hex_value byte_to_hexchar
hex_value-byte_to_hexchar v h = ground arith

-- The digits written first stay.
pub digits_from-keep :
    (index : ℕ) (negative : Bool) (number base : ℕ) (buffer : Bytes) (j : ℕ)
    → index ≤ j
    → (digits_from index negative number buffer base).0 j ≡ buffer j
unfolding digits_from
digits_from-keep zero negative number base buffer j h = refl
digits_from-keep (suc index) negative number base buffer j h =
    digits_from-keep index negative (number / base) base _ j (omega arith)
    ∙ store-ne buffer index _ j (λ e. omega arith)

hexchar_nonzero : (v : ℕ) → v < 16 → byte_to_hexchar v ≢ 0
unfolding byte_to_hexchar
hexchar_nonzero v h = ground arith

digit-lt : (n : ℕ) → u8 (n % 16) < 16
digit-lt n = omega arith

pub digits_from-nonzero :
    (index number : ℕ) (buffer : Bytes) (j : ℕ)
    → j < index
    → (digits_from index false number buffer 16).0 j ≢ 0
unfolding digits_from
digits_from-nonzero zero number buffer j h = absurd (omega arith)
digits_from-nonzero (suc index) number buffer j h = elim (ℕ_discrete j index) [
  | yes e ↦ λ z. hexchar_nonzero (u8 (number % 16)) (digit-lt number) (
      sym (store_self buffer index _)
      ∙ sym (digits_from-keep index false (number / 16) 16 _ index (omega arith))
      ∙ sym (ap (λ t. (digits_from (suc index) false number buffer 16).0 t) e)
      ∙ z)
  | no ne ↦ digits_from-nonzero index (number / 16) _ j (omega arith)
]

hex_from-digit :
    (index : ℕ) (str : Bytes) (r m v : ℕ)
    → str index ≡ byte_to_hexchar v
    → v < 16
    → hex_from (suc index) str r m ≡ hex_from index str (u32 (r + v * m)) (u32 (m * 16))
unfolding hex_from
hex_from-digit index str r m v e h =
    let value : hex_value (str index) ≡ some v = ap hex_value e ∙ hex_value-byte_to_hexchar v h in
    ap
      (λ o. elim o [
        | none ↦ hex_from index str r m
        | some c ↦ hex_from index str (u32 (r + c * m)) (u32 (m * 16))
      ])
      value

power_suc : (index : ℕ) → 16 ^ suc index ≡ 16 ^ index * 16
power_suc index = omega (arith, pow-succ' 16 index)

power_min : (index : ℕ) → 1 ≤ 16 ^ index
power_min zero = omega arith
power_min (suc index) = omega (arith, power_min index)

product_bound : (v m : ℕ) → v < 16 → v * m ≤ 15 * m
product_bound v m h = grind arith

product_min : (m p : ℕ) → 1 ≤ p → m ≤ m * p
product_min m p h = grind arith

sum_fits :
    (r m v p : ℕ) → v < 16 → r < m → 1 ≤ p → m * (p * 16) ≤ 2 ^ 32 → u32 (r + v * m) ≡ r + v * m
sum_fits r m v p h low pos fits = omega (arith, product_bound v m h, product_min m p pos)

product_min_16 : (m p : ℕ) → 16 ≤ p → m * 16 * 16 ≤ m * (p * 16)
product_min_16 m p h = grind arith

distribute : (r m q d : ℕ) → r + d * m + m * 16 * q ≡ r + m * (16 * q + d)
distribute r m q d = grind arith

power_cases : (index : ℕ) → (16 ^ index ≡ 1) ⊎ (16 ≤ 16 ^ index)
power_cases zero = inl refl
power_cases (suc index) = inr (omega (arith, power_min index))

power_pos : (index : ℕ) → 1 ≤ index → 16 ≤ 16 ^ index
power_pos zero h = absurd (omega arith)
power_pos (suc index) h = omega (arith, power_min index)

-- The round's arithmetic, where `p` is the power of 16 that the digits before it stand for.
round_sum :
    (r m n p : ℕ)
    → (p ≡ 1) ⊎ (16 ≤ p)
    → n < p * 16
    → m * (p * 16) ≤ 2 ^ 32
    → r + n % 16 * m + u32 (m * 16) * (n / 16) ≡ r + m * n
round_sum r m n p (inl one) small fits =
    let digit : n % 16 ≡ n = omega arith in
    let rest : n / 16 ≡ 0 = omega arith in rw (digit, rest) (grind arith)
round_sum r m n p (inr more) small fits =
    let within : u32 (m * 16) ≡ m * 16 = omega (arith, product_min_16 m p more) in
    let parts : m * n ≡ m * (16 * (n / 16) + n % 16) = ap (λ t. m * t) (sym (div-add-mod n 16)) in
    rw (within, parts) (distribute r m (n / 16) (n % 16))

scaled : (x m p : ℕ) → x ≤ m * 16 → x * p ≤ m * (p * 16)
scaled x m p h =
    let order : m * 16 * p ≡ m * (p * 16) = grind arith in
    omega (arith, mul-le-mul_right p h, order)

mod_le : (n : ℕ) → u32 n ≤ n
mod_le n = omega arith

-- Reading the digits back adds the number times the multiplier.
hex_from-digits_from :
    (index number : ℕ) (buffer : Bytes) (r m : ℕ)
    → number < 16 ^ index
    → m * 16 ^ index ≤ 2 ^ 32
    → (1 ≤ index → r < m)
    → hex_from index (digits_from index false number buffer 16).0 r m ≡ r + m * number
unfolding hex_from digits_from
hex_from-digits_from zero number buffer r m small fits low =
    let none_left : number ≡ 0 = omega arith in rw none_left (omega arith)
hex_from-digits_from (suc index) number buffer r m small fits low =
    let v = u8 (number % 16) in
    let p = 16 ^ index in
    let buffer' = store buffer index (byte_to_hexchar v) in
    let digit : v ≡ number % 16 = omega arith in
    let fits' : m * (p * 16) ≤ 2 ^ 32 = subst (λ t. m * t ≤ 2 ^ 32) (power_suc index) fits in
    let sum : u32 (r + v * m) ≡ r + v * m =
      sum_fits r m v p (digit-lt number) (low (omega arith)) (power_min index) fits' in
    hex_from-digit index (digits_from (suc index) false number buffer 16).0 r m v
      (digits_from-keep index false (number / 16) 16 buffer' index (omega arith)
        ∙ store_self buffer index (byte_to_hexchar v))
      (digit-lt number)
    ∙ hex_from-digits_from index (number / 16) buffer' (u32 (r + v * m)) (u32 (m * 16))
        (omega (arith, pow-succ' 16 index))
        (omega (arith, scaled (u32 (m * 16)) m p (mod_le (m * 16))))
        (λ h. omega (
          arith,
          sum,
          product_bound v m (digit-lt number),
          product_min_16 m p (power_pos index h),
          low (omega arith),
        ))
    ∙ (rw (sum, digit)
        (round_sum r m number p (power_cases index) (omega (arith, pow-succ' 16 index)) fits'))

power_le : (n k : ℕ) → 16 ^ n ≤ 16 ^ (n + k)
power_le n zero = let same : n + 0 ≡ n = omega arith in rw same (omega arith)
power_le n (suc k) =
    let next : n + suc k ≡ suc (n + k) = omega arith in
    rw next (omega (arith, power_le n k, pow-succ' 16 (n + k)))

word_size : (len : ℕ) → len ≤ 8 → 1 * 16 ^ len ≤ 2 ^ 32
word_size len h =
    let whole : len + (8 - len) ≡ 8 = omega arith in
    omega (arith, power_le len (8 - len), ap (λ t. 16 ^ t) whole)

-- A number from 0 to 2^31 - 1 written by `long_to_hex` with `len` hexadecimal digits, up to 8, in front
-- of a terminator is read back by `hex_to_long`, if it has no more digits than that.
pub hex_to_long-long_to_hex :
    (number len : ℕ) (buffer : Bytes)
    → len ≤ 8
    → number < 16 ^ len
    → number < 2147483648
    → buffer len ≡ 0
    → hex_to_long (some (long_to_hex number buffer len 16).0) ≡ number
unfolding hex_to_long
hex_to_long-long_to_hex number len buffer short small positive end =
    let test : ltb number 2147483648 ≡ true = ground arith in
    let written = (digits_from len false number buffer 16).0 in
    rw test (
      ap (λ l. hex_from l written 0 1)
        ((strlen_unsafe_lem written len (digits_from-nonzero len number buffer)).0 (omega arith)
          (digits_from-keep len false number 16 buffer len (omega arith) ∙ end))
      ∙ hex_from-digits_from len number buffer 0 1 small (word_size len short) (λ h. omega arith)
      ∙ omega arith)
