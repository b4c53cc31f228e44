-- ===== src/Stdio/Format.antt =====
-- kernel_stdio.c: what `kernel_printf` makes of a format, as a text without bounds.
use almost_os.Prelude.{
  ℕ, ◌+◌, ◌-◌, ◌*◌, ◌≤◌, ◌≡◌, ◌≢◌, refl, sym, ap, ◌∙◌, Bool, true, false, ◌&&◌, List, [], ◌∷◌, ◌++◌,
  Bytes, arith, ltb, leb, ◌==◌, if◌then◌else◌, u8, u32, Bool-cases, inl, inr, All,
}
use almost_os.Prelude.Int.{rounds}
use almost_os.Stdio.{Output, put, buffer_size, print_unknown, signed32, print_directive}
use almost_os.Stdio.Text.{push, append, append_room}
use almost_os.Stdio.Numbers.{
  hex_text, decimal_text, string_text, print_hex_lem, print_decimal_lem, print_string_lem,
}

-- A character that stands for itself, or a directive: whether it has a `0` flag, the digits of its
-- width, and its letter.
pub data Piece : Type 0 where
  literal : ℕ → Piece
  directive : Bool → List ℕ → ℕ → Piece

-- How a piece is written: 37 is `%`.
abbrev pub spell : Piece → List ℕ
spell (literal c) = c ∷ []
spell (directive zero_pad width letter) =
    37 ∷ (if zero_pad then 48 ∷ [] else []) ++ (width ++ (letter ∷ []))

abbrev pub spell_all : List Piece → List ℕ
spell_all [] = []
spell_all (p ∷ ps) = spell p ++ spell_all ps

abbrev pub IsDigit : ℕ → Type 0
IsDigit c = (48 ≤ c) × (c ≤ 57)

-- A width does not begin with the digit 0, which would be the flag, and the letter is no digit.
abbrev pub StartsWithout : ℕ → List ℕ → Type 0
StartsWithout c [] = Unit {0}
StartsWithout c (d ∷ ds) = d ≢ c

abbrev pub IsPiece : Piece → Type 0
IsPiece (literal c) = (c ≢ 0) × (c ≢ 37)
IsPiece (directive zero_pad width letter) =
    All IsDigit width
    × (zero_pad ≡ false → StartsWithout 48 width)
    × (letter ≢ 0)
    × (leb 48 letter && leb letter 57 ≡ false)

-- The width that digits stand for, read behind `value`, as a 32-bit `int`: 0 if it is negative.
abbrev pub number_from : ℕ → List ℕ → ℕ
number_from value [] = rounds (signed32 value)
number_from value (d ∷ ds) = number_from (u32 (value * 10 + (d - 48))) ds

-- The text of a directive, and the index of the next argument.
unfoldable pub directive_text : Bytes → (ℕ → ℕ) → ℕ → ℕ → Bool → ℕ → List ℕ × ℕ
directive_text memory args letter width zero_pad arg_index =
    let arg = args arg_index in
    if letter == 115
    then (if arg == 0 then [] else string_text (buffer_size - 1) memory arg, arg_index + 1)
    else if letter == 100
    then (decimal_text (signed32 arg) width zero_pad, arg_index + 1)
    else if letter == 120
    then (hex_text arg width zero_pad false, arg_index + 1)
    else if letter == 88
    then (hex_text arg width zero_pad true, arg_index + 1)
    else if letter == 99
    then (u8 arg ∷ [], arg_index + 1)
    else (37 ∷ letter ∷ [], arg_index)

abbrev pub piece_text : Bytes → (ℕ → ℕ) → ℕ → Piece → List ℕ × ℕ
piece_text memory args arg_index (literal c) = (c ∷ [], arg_index)
piece_text memory args arg_index (directive zero_pad width letter) =
    directive_text memory args letter (number_from 0 width) zero_pad arg_index

-- The whole text of a format.
abbrev pub text : Bytes → (ℕ → ℕ) → ℕ → List Piece → List ℕ
text memory args arg_index [] = []
text memory args arg_index (p ∷ ps) =
    let (s, next) = piece_text memory args arg_index p in s ++ text memory args next ps

print_unknown_lem : (c : ℕ) (o : Output) → c ≢ 0 → print_unknown c o ≡ append buffer_size o (c ∷ [])
unfolding append push
print_unknown_lem c o h = ground arith

-- Where there is room, a directive appends its text.
pub print_directive_lem :
    (memory : Bytes) (args : ℕ → ℕ) (numbuf : Bytes) (letter width : ℕ) (zero_pad : Bool)
    (arg_index : ℕ) (o : Output)
    → letter ≢ 0
    → ltb o.buf_i (buffer_size - 1) ≡ true
    → let (s, next) = directive_text memory args letter width zero_pad arg_index in
      print_directive memory args numbuf letter width zero_pad arg_index o
      ≡ (append buffer_size o s, next)
unfolding print_directive directive_text append
print_directive_lem memory args numbuf letter width zero_pad arg_index o h room =
    elim (Bool-cases (letter == 115)) [
      | inl is_s ↦ elim (Bool-cases (args arg_index == 0)) [
        | inl null ↦ rw (is_s, null) refl
        | inr str ↦
            rw (is_s, str)
              (ap (λ o'. (o', arg_index + 1))
                (print_string_lem (buffer_size - 1) memory (args arg_index) o))
      ]
      | inr no_s ↦ elim (Bool-cases (letter == 100)) [
        | inl is_d ↦
            rw (no_s, is_d)
              (ap (λ o'. (o', arg_index + 1))
                (print_decimal_lem (signed32 (args arg_index)) numbuf o buffer_size width zero_pad))
        | inr no_d ↦ elim (Bool-cases (letter == 120)) [
          | inl is_x ↦
              rw (no_s, no_d, is_x)
                (ap (λ o'. (o', arg_index + 1))
                  (print_hex_lem (args arg_index) numbuf o buffer_size width zero_pad false))
          | inr no_x ↦ elim (Bool-cases (letter == 88)) [
            | inl is_X ↦
                rw (no_s, no_d, no_x, is_X)
                  (ap (λ o'. (o', arg_index + 1))
                    (print_hex_lem (args arg_index) numbuf o buffer_size width zero_pad true))
            | inr no_X ↦ elim (Bool-cases (letter == 99)) [
              | inl is_c ↦
                  rw (no_s, no_d, no_x, no_X, is_c)
                    (ap (λ o'. (o', arg_index + 1))
                      (sym (append_room buffer_size o (u8 (args arg_index)) [] room)))
              | inr no_c ↦
                  rw (no_s, no_d, no_x, no_X, no_c)
                    (ap (λ o'. (o', arg_index))
                      (print_unknown_lem letter (put o 37) h
                        ∙ sym (append_room buffer_size o 37 (letter ∷ []) room)))
            ]
          ]
        ]
      ]
    ]
