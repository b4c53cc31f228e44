-- ===== src/Stdio/Text.antt =====
-- kernel_stdio.c: what each printing routine does is to append a text to the buffer, as far as
-- there is room.
use almost_os.Prelude.{
  ℕ, zero, suc, ◌+◌, ◌-◌, ◌/◌, ◌%◌, ◌≤◌, ◌≡◌, refl, sym, ap, ap₂, ◌∙◌, true, false, List, [], ◌∷◌,
  ◌++◌, Bytes, store, arith, ltb, ◌==◌, if◌then◌else◌, length, Bool-cases, inl, inr, store-ne,
  store_self, length-append,
}
use mathlib.Core.List.{append_assoc}
use native.Mathlib.Numerals.{add-one}
use almost_os.Stdio.{Output, put, numbuf_size, number_digits, print_padding, print_reversed}

-- One character, if there is room for it and the final 0.
unfoldable pub push : ℕ → Output → ℕ → Output
push maxlen o c = if ltb o.buf_i (maxlen - 1) then put o c else o

unfoldable pub append : ℕ → Output → List ℕ → Output
append maxlen o [] = o
append maxlen o (c ∷ text) = append maxlen (push maxlen o c) text

pub append_full :
    (maxlen : ℕ) (o : Output) (text : List ℕ)
    → ltb o.buf_i (maxlen - 1) ≡ false
    → append maxlen o text ≡ o
unfolding append push
append_full maxlen o [] full = refl
append_full maxlen o (c ∷ text) full = rw full (append_full maxlen o text full)

pub append_room :
    (maxlen : ℕ) (o : Output) (c : ℕ) (text : List ℕ)
    → ltb o.buf_i (maxlen - 1) ≡ true
    → append maxlen o (c ∷ text) ≡ append maxlen (put o c) text
unfolding append push
append_room maxlen o c text room = simp room

pub append-++ :
    (maxlen : ℕ) (o : Output) (s t : List ℕ)
    → append maxlen o (s ++ t) ≡ append maxlen (append maxlen o s) t
unfolding append
append-++ maxlen o [] t = refl
append-++ maxlen o (c ∷ s) t = append-++ maxlen (push maxlen o c) s t

-- `n` times the character `c`.
unfoldable pub replicate : ℕ → ℕ → List ℕ
replicate zero c = []
replicate (suc n) c = c ∷ replicate n c

pub print_padding_lem :
    (maxlen n : ℕ) (o : Output) → print_padding maxlen n o ≡ append maxlen o (replicate n 48)
unfolding print_padding append replicate
print_padding_lem maxlen zero o = refl
print_padding_lem maxlen (suc n) o = elim (Bool-cases (ltb o.buf_i (maxlen - 1))) [
  | inl room ↦
      rw room (
        print_padding_lem maxlen n (put o 48) ∙ sym (append_room maxlen o 48 (replicate n 48) room))
  | inr full ↦ rw full (sym (append_full maxlen o (replicate (suc n) 48) full))
]

-- The first `n` characters of `numbuf`, the last of them first.
unfoldable pub reversed : Bytes → ℕ → List ℕ
reversed numbuf zero = []
reversed numbuf (suc n) = numbuf n ∷ reversed numbuf n

pub print_reversed_lem :
    (maxlen : ℕ) (numbuf : Bytes) (n : ℕ) (o : Output)
    → print_reversed maxlen numbuf n o ≡ append maxlen o (reversed numbuf n)
unfolding print_reversed append reversed
print_reversed_lem maxlen numbuf zero o = refl
print_reversed_lem maxlen numbuf (suc n) o = elim (Bool-cases (ltb o.buf_i (maxlen - 1))) [
  | inl room ↦ rw room (
      print_reversed_lem maxlen numbuf n (put o (numbuf n))
      ∙ sym (append_room maxlen o (numbuf n) (reversed numbuf n) room))
  | inr full ↦ rw full (sym (append_full maxlen o (reversed numbuf (suc n)) full))
]

reversed-store :
    (numbuf : Bytes) (k v n : ℕ) → n ≤ k → reversed (store numbuf k v) n ≡ reversed numbuf n
unfolding reversed
reversed-store numbuf k v zero h = refl
reversed-store numbuf k v (suc n) h =
    ap₂ ◌∷◌ (store-ne numbuf k v n (λ e. omega arith)) (reversed-store numbuf k v n (omega arith))

-- The digits of a number in a base, at most `fuel` of them, the highest first.
unfoldable pub digits : ℕ → ℕ → (ℕ → ℕ) → ℕ → List ℕ
digits zero base digit val = []
digits (suc fuel) base digit val =
    let rest = digits fuel base digit (val / base) in
    (if val / base == 0 then [] else rest) ++ digit (val % base) ∷ []

-- The digits `text` have been added to `numbuf`, the last of them first.
abbrev pub Added : Bytes × ℕ → List ℕ → Bytes → ℕ → Type 0
Added (numbuf', num_i') text numbuf num_i =
    (reversed numbuf' num_i' ≡ text ++ reversed numbuf num_i) × (num_i' ≡ length text + num_i)

Added-one :
    (numbuf : Bytes) (num_i d : ℕ) → Added (store numbuf num_i d, num_i + 1) (d ∷ []) numbuf num_i
unfolding reversed
Added-one numbuf num_i d = (
  rw add-one
      (ap₂ ◌∷◌ (store_self numbuf num_i d) (reversed-store numbuf num_i d num_i (omega arith))),
  omega arith,
)

Added-more :
    (r : Bytes × ℕ) (text : List ℕ) (numbuf : Bytes) (num_i d : ℕ)
    → Added r text (store numbuf num_i d) (num_i + 1)
    → Added r (text ++ d ∷ []) numbuf num_i
Added-more (numbuf', num_i') text numbuf num_i d (e, l) = (
  e
      ∙ ap (λ (t : List ℕ). text ++ t) (Added-one numbuf num_i d).0
      ∙ sym (append_assoc text (d ∷ []) (reversed numbuf num_i)),
  omega (arith, l, length-append {0} text (d ∷ [])),
)

-- The `do` loop writes the digits into `numbuf`, the lowest first.
pub number_digits_lem :
    (n base : ℕ) (digit : ℕ → ℕ) (val : ℕ) (numbuf : Bytes) (num_i : ℕ)
    → suc n + num_i ≡ numbuf_size
    → Added
        (number_digits (suc n) base digit val numbuf num_i)
        (digits (suc n) base digit val)
        numbuf
        num_i
unfolding number_digits digits
number_digits_lem zero base digit val numbuf num_i e =
    let last : ltb (num_i + 1) numbuf_size ≡ false = ground arith in
    elim (Bool-cases (val / base == 0)) [
      | inl stop ↦ simp (stop, last) (Added-one numbuf num_i (digit (val % base)))
      | inr more ↦ simp (more, last) (Added-one numbuf num_i (digit (val % base)))
    ]
number_digits_lem (suc n) base digit val numbuf num_i e =
    let room : ltb (num_i + 1) numbuf_size ≡ true = ground arith in
    elim (Bool-cases (val / base == 0)) [
      | inl stop ↦ simp (stop, room) (Added-one numbuf num_i (digit (val % base)))
      | inr more ↦
          simp (more, room)
            (Added-more _ (digits (suc n) base digit (val / base)) numbuf num_i (digit (val % base))
              (number_digits_lem n base digit (val / base) (store numbuf num_i (digit (val % base)))
                (num_i + 1) (omega arith)))
    ]
