-- ===== src/Stdio/Printf.antt =====
-- kernel_stdio.c, kernel_printf: the text of a format goes into the buffer, as far as there is room.
use almost_os.Prelude.{
  ℕ, zero, suc, ◌+◌, ◌-◌, ◌*◌, ◌≤◌, ◌<◌, ◌≡◌, refl, sym, ap, ◌∙◌, Bool, true, false, ◌&&◌, some,
  List, [], ◌∷◌, ◌++◌, Bytes, arith, ltb, leb, ◌==◌, length, length-append, Bool-cases, inl, inr,
  All, u32,
}
use mathlib.Core.List.{append_assoc}
use mathlib.Core.Path.{subst}
use almost_os.Stdio.{Output, put, buffer_size, print_directive, parse_width, after_flag, print_from}
use almost_os.Stdio.Text.{append, append_full, append_room, append-++}
use almost_os.Stdio.Format.{
  Piece, literal, directive, spell, spell_all, IsDigit, IsPiece, StartsWithout, number_from,
  directive_text, text, print_directive_lem,
}

-- From index `i` on the characters are those of the list.
abbrev pub Spells : Bytes → ℕ → List ℕ → Type 0
Spells f i [] = Unit {0}
Spells f i (c ∷ cs) = (f i ≡ c) × Spells f (i + 1) cs

parse_width_lem :
    (width : List ℕ) (fuel : ℕ) (f : Bytes) (i value letter : ℕ) (rest : List ℕ)
    → All IsDigit width
    → leb 48 letter && leb letter 57 ≡ false
    → Spells f i (width ++ (letter ∷ rest))
    → length width < fuel
    → (k : ℕ) × (parse_width fuel f i value ≡ some (number_from value width, k))
      × (f k ≡ letter)
      × Spells f (k + 1) rest
unfolding parse_width
parse_width_lem width zero f i value letter rest ds end spells h = absurd (omega arith)
parse_width_lem [] (suc fuel) f i value letter rest ds end (e, spells) h =
    (i, rw (e, end) refl, e, spells)
parse_width_lem (d ∷ ds) (suc fuel) f i value letter rest (is_digit, others) end (e, spells) h =
    let test : (leb 48 d && leb d 57) ≡ true = ground arith in
    let (k, parsed, at, after) =
      parse_width_lem ds fuel f (i + 1) (u32 (value * 10 + (d - 48))) letter rest others end spells
        (omega arith) in
    (k, rw (e, test) parsed, at, after)

no_flag :
    (width : List ℕ) (f : Bytes) (i letter : ℕ) (rest : List ℕ)
    → StartsWithout 48 width
    → leb 48 letter && leb letter 57 ≡ false
    → Spells f i (width ++ (letter ∷ rest))
    → (f i == 48) ≡ false
no_flag [] f i letter rest starts end (e, spells) = ground arith
no_flag (d ∷ ds) f i letter rest starts end (e, spells) = ground arith

-- Behind `%` come the flag and a width that is not taken for one.
directive_at :
    (zero_pad : Bool) (width : List ℕ) (fuel : ℕ) (f : Bytes) (i letter : ℕ) (rest : List ℕ)
    → IsPiece (directive zero_pad width letter)
    → Spells f i (spell (directive zero_pad width letter) ++ rest)
    → length width < fuel
    → (k : ℕ) × ((f (i + 1) == 48) ≡ zero_pad)
      × (parse_width fuel f (after_flag f (i + 1)) 0 ≡ some (number_from 0 width, k))
      × (f k ≡ letter)
      × Spells f (k + 1) rest
directive_at true width fuel f i letter rest (ds, _, _, end) (_, (e, spells)) h =
    let test : (f (i + 1) == 48) ≡ true = ground (arith, e) in
    let (k, parsed, at, after) =
      parse_width_lem width fuel f (i + 1 + 1) 0 letter rest ds end (rw append_assoc at spells) h in
    (k, test, rw test parsed, at, after)
directive_at false width fuel f i letter rest (ds, starts, _, end) (_, spells) h =
    let spelled : Spells f (i + 1) (width ++ (letter ∷ rest)) = rw append_assoc at spells in
    let test = no_flag width f (i + 1) letter rest (starts refl) end spelled in
    let (k, parsed, at, after) =
      parse_width_lem width fuel f (i + 1) 0 letter rest ds end spelled h in
    (k, test, rw test parsed, at, after)

spell_length :
    (z : Bool) (w : List ℕ) (l : ℕ) (ps : List Piece)
    → 2 + length w + length (spell_all ps) ≤ length (spell_all (directive z w l ∷ ps))
spell_length true w l ps =
    omega (arith, length-append {0} (w ++ (l ∷ [])) (spell_all ps), length-append {0} w (l ∷ []))
spell_length false w l ps =
    omega (arith, length-append {0} (w ++ (l ∷ [])) (spell_all ps), length-append {0} w (l ∷ []))

module _ (format memory : Bytes) (args : ℕ → ℕ) (numbuf : Bytes) where
  -- One round of the loop at a directive.
  pub print_from-directive :
      (fuel i arg_index width k : ℕ) (o : Output)
      → format i ≡ 37
      → ltb o.buf_i (buffer_size - 1) ≡ true
      → parse_width fuel format (after_flag format (i + 1)) 0 ≡ some (width, k)
      → let (o', next) =
          print_directive memory args numbuf (format k) width (format (i + 1) == 48) arg_index o in
        print_from (suc fuel) format memory args numbuf i arg_index o
        ≡ print_from fuel format memory args numbuf (k + 1) next o'
  unfolding print_from
  print_from-directive fuel i arg_index width k o percent room parsed =
      let more : leb 255 o.buf_i ≡ false = ground arith in rw (percent, more, parsed) refl

  -- One piece is one round of the loop, which stops early only where nothing more fits.
  pub print_from_lem :
      (fuel : ℕ) (ps : List Piece) (i arg_index : ℕ) (o : Output)
      → All IsPiece ps
      → Spells format i (spell_all ps ++ (0 ∷ []))
      → length (spell_all ps) < fuel
      → print_from fuel format memory args numbuf i arg_index o
        ≡ some (append buffer_size o (text memory args arg_index ps))
  unfolding print_from append
  print_from_lem zero ps i arg_index o pieces spells h = absurd (omega arith)
  print_from_lem (suc fuel) [] i arg_index o pieces (e, _) h = rw e refl
  print_from_lem (suc fuel) (literal c ∷ ps) i arg_index o ((c_ne, percent), pieces) (e, spells) h =
      let end : (c == 0) ≡ false = ground arith in
      let plain : (c == 37) ≡ false = ground arith in
      elim (Bool-cases (ltb o.buf_i (buffer_size - 1))) [
        | inl room ↦
            let more : leb 255 o.buf_i ≡ false = ground arith in
            rw (e, end, plain, more)
              (print_from_lem fuel ps (i + 1) arg_index (put o c) pieces spells (omega arith)
                ∙ ap some (sym (append_room buffer_size o c (text memory args arg_index ps) room)))
        | inr full ↦
            let stop : leb 255 o.buf_i ≡ true = ground arith in
            rw (e, end, stop)
              (ap some (sym (append_full buffer_size o (c ∷ text memory args arg_index ps) full)))
      ]
  print_from_lem (suc fuel) (directive z w l ∷ ps) i arg_index o (piece, pieces) spells h =
      let fits = spell_length z w l ps in
      let spelled : Spells format i (spell (directive z w l) ++ (spell_all ps ++ (0 ∷ []))) =
        subst (λ (t : List ℕ). Spells format i t)
          (append_assoc (spell (directive z w l)) (spell_all ps) (0 ∷ [])) spells in
      let (k, flag, parsed, at, after) =
        directive_at z w fuel format i l (spell_all ps ++ (0 ∷ [])) piece spelled (omega arith) in
      let (s, next) = directive_text memory args l (number_from 0 w) z arg_index in
      elim (Bool-cases (ltb o.buf_i (buffer_size - 1))) [
        | inl room ↦
            rw
              (
                print_from-directive fuel i arg_index (number_from 0 w) k o spells.0 room parsed,
                flag,
                at,
                print_directive_lem memory args numbuf l (number_from 0 w) z arg_index o piece.2
                    room,
              )
              (print_from_lem fuel ps (k + 1) next (append buffer_size o s) pieces after
                  (omega arith)
                ∙ ap some (sym (append-++ buffer_size o s (text memory args next ps))))
        | inr full ↦
            let stop : leb 255 o.buf_i ≡ true = ground arith in
            rw (spells.0, stop)
              (ap some (sym (append_full buffer_size o (s ++ text memory args next ps) full)))
      ]
