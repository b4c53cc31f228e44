-- ===== src/Prelude/Int.antt =====
-- The C `int` as a mathematical integer; `negsuc n` is -(n + 1).
use Prim.Native.Nat.{ℕ, zero, suc, ◌-◌, bit_and, bit_or}
use mathlib.Core.Path.{◌≡◌, ap}
use mathlib.Core.Bool.{Bool, true, false}
use mathlib.Core.Logic.{◌↔◌}
use native.Mathlib.Omega.{arith}
use almost_os.Prelude.Tests.{ltb, ◌==◌}

pub data ℤ : Type 0 where
  pos : ℕ → ℤ
  negsuc : ℕ → ℤ

-- `x < 0`
abbrev pub is_negative : ℤ → Bool
is_negative (pos n) = false
is_negative (negsuc n) = true

-- `x == 0`
abbrev pub is_zero : ℤ → Bool
is_zero (pos zero) = true
is_zero (pos (suc n)) = false
is_zero (negsuc n) = false

-- `a | b` on two's complement integers: the complement of -(n + 1) is n.
unfoldable pub or : ℤ → ℤ → ℤ
or (pos zero) b = b
or (pos (suc a)) (pos b) = pos (bit_or (suc a) b)
or (pos (suc a)) (negsuc b) = negsuc (b - bit_and (suc a) b)
or (negsuc a) (pos zero) = negsuc a
or (negsuc a) (pos (suc b)) = negsuc (a - bit_and a (suc b))
or (negsuc a) (negsuc b) = negsuc (bit_and a b)

-- How often `for (int i = 0; i < n; i++)` goes round.
abbrev pub rounds : ℤ → ℕ
rounds (pos n) = n
rounds (negsuc n) = 0

-- `a == b`
abbrev pub int_eq : ℤ → ℤ → Bool
int_eq (pos a) (pos b) = a == b
int_eq (pos a) (negsuc b) = false
int_eq (negsuc a) (pos b) = false
int_eq (negsuc a) (negsuc b) = a == b

-- `a < b`
abbrev pub int_lt : ℤ → ℤ → Bool
int_lt (pos a) (pos b) = ltb a b
int_lt (pos a) (negsuc b) = false
int_lt (negsuc a) (pos b) = true
int_lt (negsuc a) (negsuc b) = ltb b a

pub int_eq_lem : (a b : ℤ) → (int_eq a b ≡ true) ↔ (a ≡ b)
int_eq_lem (pos a) (pos b) = (λ h. ap pos (ground arith), λ e. ground arith)
int_eq_lem (pos a) (negsuc b) = (λ h. ground arith, λ e. ground arith)
int_eq_lem (negsuc a) (pos b) = (λ h. ground arith, λ e. ground arith)
int_eq_lem (negsuc a) (negsuc b) = (λ h. ap negsuc (ground arith), λ e. ground arith)
