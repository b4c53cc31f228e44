-- ===== src/Util/Bits.antt =====
-- Bitwise or on bytes, by evaluation over the range of its arguments.
use almost_os.Prelude.{
  ℕ, zero, suc, ◌+◌, ◌*◌, ◌%◌, ◌<◌, ◌≡◌, refl, Bool, true, false, bit_or, arith, ◌==◌,
  if◌then◌else◌, u8, ℕ_discrete, Bool-cases, inl, inr,
}

-- Whether two functions have the same values at all numbers less than the bound.
unfoldable pub same_values : (ℕ → ℕ) → (ℕ → ℕ) → ℕ → Bool
same_values f g zero = true
same_values f g (suc bound) = if f bound == g bound then same_values f g bound else false

-- The same for functions of two arguments, row by row.
unfoldable pub same_rows : (ℕ → ℕ → ℕ) → (ℕ → ℕ → ℕ) → ℕ → ℕ → Bool
unfolding same_values
same_rows f g zero width = true
same_rows f g (suc height) width =
    if same_values (f height) (g height) width then same_rows f g height width else false

pub same_values_lem :
    (f g : ℕ → ℕ) (bound a : ℕ) → same_values f g bound ≡ true → a < bound → f a ≡ g a
unfolding same_values
same_values_lem f g zero a checked h = absurd (omega arith)
same_values_lem f g (suc bound) a checked h = elim (ℕ_discrete a bound) [
  | yes last ↦ rw last (ground (arith, checked))
  | no other ↦ same_values_lem f g bound a (ground (arith, checked)) (omega arith)
]

same_rows_lem :
    (f g : ℕ → ℕ → ℕ) (height width a b : ℕ)
    → same_rows f g height width ≡ true
    → a < height
    → b < width
    → f a b ≡ g a b
unfolding same_rows
same_rows_lem f g zero width a b checked p q = absurd (omega arith)
same_rows_lem f g (suc height) width a b checked p q =
    elim (Bool-cases (same_values (f height) (g height) width)) [
      | inl row ↦ elim (ℕ_discrete a height) [
        | yes last ↦ rw last (same_values_lem (f height) (g height) width b row q)
        | no other ↦ same_rows_lem f g height width a b (rw row at checked) (omega arith) q
      ]
      | inr differs ↦ absurd (cc (rw differs at checked))
    ]

-- `b |= 1 << 7`, `b |= p << 5` and `b |= g` on a byte.
pub or_present : (b p : ℕ) → b < 256 → p < 1 → u8 (bit_or b 128) % 128 ≡ b % 128
unfolding same_rows
or_present b p = same_rows_lem (λ b p. u8 (bit_or b 128) % 128) (λ b p. b % 128) 256 1 b p refl

pub or_privilege : (b p : ℕ) → b < 256 → p < 4 → u8 (bit_or b (p * 32)) % 16 ≡ b % 16
unfolding same_rows
or_privilege b p = same_rows_lem (λ b p. u8 (bit_or b (p * 32)) % 16) (λ b p. b % 16) 256 4 b p refl

pub or_fresh :
    (p g : ℕ)
    → p < 4
    → g < 16
    → u8 (bit_or (u8 (bit_or (u8 (bit_or 0 128)) (p * 32))) g) ≡ 128 + p * 32 + g
unfolding same_rows
or_fresh p g =
    same_rows_lem (λ p g. u8 (bit_or (u8 (bit_or (u8 (bit_or 0 128)) (p * 32))) g))
      (λ p g. 128 + p * 32 + g) 4 16 p g refl

pub or_ones : (h g : ℕ) → h < 16 → g < 16 → u8 (bit_or (h * 16 + 15) g) % 16 ≡ 15
unfolding same_rows
or_ones h g = same_rows_lem (λ h g. u8 (bit_or (h * 16 + 15) g) % 16) (λ h g. 15) 16 16 h g refl
