-- ===== src/Scheduler/Stacks/Slots.antt =====
-- scheduler.c: how many slots of the process table are in use, and how many of them own a stack.
use almost_os.Prelude.{
  ℕ, zero, suc, ◌+◌, ◌≤◌, ◌<◌, ◌≡◌, refl, ap, arith, ℕ_discrete, ◌==◌, if◌then◌else◌,
}
use almost_os.Scheduler.{Process, cleared, is_unused, put}

-- 1 if the process owns the stack at `p`, else 0.
abbrev pub owns : ℕ → Process → ℕ
owns p q = if is_unused q then 0 else if q.stack_mem_base == p then 1 else 0

-- The owners of the stack at `p` among the slots 1, …, n.
pub owners : ℕ → ℕ → (ℕ → Process) → ℕ
owners p zero ps = 0
owners p (suc n) ps = owns p (ps (suc n)) + owners p n ps

abbrev pub live : Process → ℕ
live q = if is_unused q then 0 else 1

-- The processes in use among the slots 1, …, n.
pub in_use : ℕ → (ℕ → Process) → ℕ
in_use zero ps = 0
in_use (suc n) ps = live (ps (suc n)) + in_use n ps

pub owners-put_above :
    (p n i : ℕ) (ps : ℕ → Process) (q : Process) → n < i → owners p n (put ps i q) ≡ owners p n ps
unfolding owners
owners-put_above p zero i ps q h = refl
owners-put_above p (suc n) i ps q h = ground (arith, owners-put_above p n i ps q)

pub owners-put :
    (p n i : ℕ) (ps : ℕ → Process) (q : Process)
    → 1 ≤ i
    → i ≤ n
    → owners p n (put ps i q) + owns p (ps i) ≡ owners p n ps + owns p q
unfolding owners
owners-put p zero i ps q one le = absurd (omega arith)
owners-put p (suc n) i ps q one le = elim (ℕ_discrete i (suc n)) [
  | yes e ↦ ground (arith, owners-put_above p n i ps q, ap (λ k. owns p (ps k)) e)
  | no ne ↦ ground (arith, owners-put p n i ps q one (omega arith))
]

in_use-put_above :
    (n i : ℕ) (ps : ℕ → Process) (q : Process) → n < i → in_use n (put ps i q) ≡ in_use n ps
unfolding in_use
in_use-put_above zero i ps q h = refl
in_use-put_above (suc n) i ps q h = ground (arith, in_use-put_above n i ps q)

pub in_use-put :
    (n i : ℕ) (ps : ℕ → Process) (q : Process)
    → 1 ≤ i
    → i ≤ n
    → in_use n (put ps i q) + live (ps i) ≡ in_use n ps + live q
unfolding in_use
in_use-put zero i ps q one le = absurd (omega arith)
in_use-put (suc n) i ps q one le = elim (ℕ_discrete i (suc n)) [
  | yes e ↦ ground (arith, in_use-put_above n i ps q, ap (λ k. live (ps k)) e)
  | no ne ↦ ground (arith, in_use-put n i ps q one (omega arith))
]

pub in_use-le : (n : ℕ) (ps : ℕ → Process) → in_use n ps ≤ n
unfolding in_use
in_use-le zero ps = omega arith
in_use-le (suc n) ps = ground (arith, in_use-le n ps)

pub owns-le-owners : (p n i : ℕ) (ps : ℕ → Process) → 1 ≤ i → i ≤ n → owns p (ps i) ≤ owners p n ps
unfolding owners
owns-le-owners p zero i ps one le = absurd (omega arith)
owns-le-owners p (suc n) i ps one le = elim (ℕ_discrete i (suc n)) [
  | yes e ↦ omega (arith, ap (λ k. owns p (ps k)) e)
  | no ne ↦ omega (arith, owns-le-owners p n i ps one (omega arith))
]

-- Two slots that own one stack count twice.
pub two_owners :
    (p n i j : ℕ) (ps : ℕ → Process)
    → 1 ≤ i
    → i < j
    → j ≤ n
    → owns p (ps i) + owns p (ps j) ≤ owners p n ps
unfolding owners
two_owners p zero i j ps one lt le = absurd (omega arith)
two_owners p (suc n) i j ps one lt le = elim (ℕ_discrete j (suc n)) [
  | yes e ↦ omega (arith, ap (λ k. owns p (ps k)) e, owns-le-owners p n i ps one (omega arith))
  | no ne ↦ omega (arith, two_owners p n i j ps one lt (omega arith))
]

pub live-le-in_use : (n i : ℕ) (ps : ℕ → Process) → 1 ≤ i → i ≤ n → live (ps i) ≤ in_use n ps
unfolding in_use
live-le-in_use zero i ps one le = absurd (omega arith)
live-le-in_use (suc n) i ps one le = elim (ℕ_discrete i (suc n)) [
  | yes e ↦ omega (arith, ap (λ k. live (ps k)) e)
  | no ne ↦ omega (arith, live-le-in_use n i ps one (omega arith))
]

-- Two processes in use count two.
pub two_live :
    (n i j : ℕ) (ps : ℕ → Process) → 1 ≤ i → i < j → j ≤ n → live (ps i) + live (ps j) ≤ in_use n ps
unfolding in_use
two_live zero i j ps one lt le = absurd (omega arith)
two_live (suc n) i j ps one lt le = elim (ℕ_discrete j (suc n)) [
  | yes e ↦ omega (arith, ap (λ k. live (ps k)) e, live-le-in_use n i ps one (omega arith))
  | no ne ↦ omega (arith, two_live n i j ps one lt (omega arith))
]

-- A table with nothing but its slot 0 in use.
pub in_use-cleared : (n : ℕ) (p : Process) → in_use n (put (λ i. cleared) 0 p) ≡ 0
unfolding in_use
in_use-cleared zero p = refl
in_use-cleared (suc n) p = ground (arith, in_use-cleared n p)

pub owners-cleared : (a n : ℕ) (p : Process) → owners a n (put (λ i. cleared) 0 p) ≡ 0
unfolding owners
owners-cleared a zero p = refl
owners-cleared a (suc n) p = ground (arith, owners-cleared a n p)
