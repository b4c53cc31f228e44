-- ===== src/Prelude/Maybe.antt =====
-- Chains of steps that may not come to an end.
use mathlib.Core.Option.{Option, none, some}

infixl 5 ◌>>=◌
abbrev pub ◌>>=◌ {ℓ κ} : {A : Type ℓ} {B : Type κ} → Option A → (A → Option B) → Option B
none >>= f = none
some a >>= f = f a

abbrev pub option_map {ℓ κ} : {A : Type ℓ} → {B : Type κ} → (A → B) → Option A → Option B
option_map f none = none
option_map f (some a) = some (f a)

abbrev pub option_or {ℓ} : {A : Type ℓ} → Option A → A → A
option_or none b = b
option_or (some a) b = a
