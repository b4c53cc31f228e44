-- ===== src/Stdio/Bounds.antt =====
-- kernel_stdio.c, kernel_printf: the buffer of 256 characters behind a printed text.
use almost_os.Prelude.{
  ℕ, zero, suc, ◌+◌, ◌-◌, ◌<◌, ◌≡◌, refl, sym, ap, ◌∙◌, true, false, some, List, [], ◌∷◌, ◌++◌,
  Bytes, store, arith, ltb, ◌==◌, if◌then◌else◌, length, Bool-cases, inl, inr, All, get_or,
  ℕ_discrete,
}
use almost_os.Prelude.Maybe.{option_map}
use almost_os.Stdio.{
  Output, put, buffer_size, print_directive, parse_width, print_from, kernel_printf,
}
use almost_os.Stdio.Text.{append, append_full, append_room}
use almost_os.Stdio.Format.{Piece, IsPiece, spell_all, text}
use almost_os.Stdio.Printf.{Spells, print_from_lem, print_from-directive}

-- How many characters of a text are taken where there is room for `room` of them.
abbrev pub taken : ℕ → List ℕ → ℕ
taken room t = if ltb (length t) room then length t else room

-- The buffer after `t` has been appended at index `n`.
abbrev pub Appended : Bytes → ℕ → ℕ → List ℕ → Bytes → Type 0
Appended buffer n room t buffer' =
    (j : ℕ)
    → buffer' j ≡ (
        if ltb j n
        then buffer j
        else if ltb j (n + taken room t)
        then get_or t (j - n) 0
        else buffer j)

-- A text whose first character stands at index `n` already.
Appended-∷ :
    (buffer buffer' : Bytes) (n room c : ℕ) (t : List ℕ)
    → Appended (store buffer n c) (n + 1) room t buffer'
    → Appended buffer n (suc room) (c ∷ t) buffer'
Appended-∷ buffer buffer' n room c t content j = elim (ℕ_discrete j n) [
  | yes e ↦ rw e (ground (arith, content n))
  | no other ↦ elim (Bool-cases (ltb j n)) [
    | inl before ↦ ground (arith, content j)
    | inr after ↦
        let shift : j - n ≡ suc (j - (n + 1)) = ground arith in rw shift (ground (arith, content j))
  ]
]

append-Appended :
    (t : List ℕ) (o : Output) (room : ℕ)
    → o.buf_i + room ≡ buffer_size - 1
    → ((append buffer_size o t).buf_i ≡ o.buf_i + taken room t)
      × Appended o.buffer o.buf_i room t (append buffer_size o t).buffer
append-Appended [] o room e = unfold append in (ground arith, λ j. ground arith)
append-Appended (c ∷ t) o zero e =
    let full : ltb o.buf_i 255 ≡ false = ground arith in
    rw (append_full buffer_size o (c ∷ t) full) (ground arith, λ j. ground arith)
append-Appended (c ∷ t) o (suc room) e =
    let fits : ltb o.buf_i 255 ≡ true = ground arith in
    let (len, content) = append-Appended t (put o c) room (omega arith) in
    rw (append_room buffer_size o c t fits)
      (ground (arith, len), Appended-∷ o.buffer _ o.buf_i room c t content)

-- The buffer that `kernel_print` gets for the text `t`: its first 255 characters and a 0.
abbrev pub Printed : Bytes → List ℕ → Bytes → Type 0
Printed buffer t out =
    (j : ℕ)
    → out j
      ≡ (if ltb j (taken 255 t) then get_or t j 0 else if j == taken 255 t then 0 else buffer j)

pub Printed-end :
    (buffer : Bytes) (t : List ℕ)
    → let o = append buffer_size (record { buffer = buffer; buf_i = 0 }) t in
      Printed buffer t (store o.buffer o.buf_i 0)
Printed-end buffer t j =
    let (len, content) = append-Appended t (record { buffer = buffer; buf_i = 0 }) 255 refl in
    ground (arith, len, content j)

-- `kernel_printf` comes to an end on every format that ends outside a directive. Its buffer then
-- holds the text that the format and the arguments stand for, cut off after 255 characters, and a 0
-- behind it; the rest of the buffer stays. Fuel above the length of the format is enough. A width
-- stands for the `int` that its digits make modulo 2^32, and -2^31 for the text that its overflowing
-- negation gives.
pub kernel_printf_lem :
    (fuel : ℕ) (ps : List Piece) (format memory : Bytes) (args : ℕ → ℕ) (buffer numbuf : Bytes)
    → All IsPiece ps
    → Spells format 0 (spell_all ps ++ (0 ∷ []))
    → length (spell_all ps) < fuel
    → (out : Bytes) × (kernel_printf fuel format memory args buffer numbuf ≡ some out)
      × Printed buffer (text memory args 0 ps) out
unfolding kernel_printf
kernel_printf_lem fuel ps format memory args buffer numbuf pieces spells h = (
  _,
  rw
      (print_from_lem format memory args numbuf fuel ps 0 0 (record { buffer = buffer; buf_i = 0 })
        pieces spells h)
      refl,
  Printed-end buffer (text memory args 0 ps),
)

-- A round of the loop at a `%` that the terminator follows.
print_from-bare :
    (fuel : ℕ) (format memory : Bytes) (args : ℕ → ℕ) (numbuf : Bytes) (i : ℕ) (o : Output)
    → format i ≡ 37
    → format (i + 1) ≡ 0
    → ltb o.buf_i (buffer_size - 1) ≡ true
    → print_from (suc (suc fuel)) format memory args numbuf i 0 o
      ≡ print_from (suc fuel) format memory args numbuf (i + 1 + 1) 0 (put o 37)
unfolding parse_width print_directive
print_from-bare fuel format memory args numbuf i o percent end room =
    rw
      (print_from-directive format memory args numbuf (suc fuel) i 0 0 (i + 1) o percent room
        (rw (end, end) refl))
      (rw end refl)

-- A format that is only `%` goes on past its terminator: `kernel_printf` prints `%` and then the text
-- of the format that stands behind it and ends outside a directive, cut off after 255 characters.
pub kernel_printf-past_end :
    (fuel : ℕ) (ps : List Piece) (format memory : Bytes) (args : ℕ → ℕ) (buffer numbuf : Bytes)
    → format 0 ≡ 37
    → format 1 ≡ 0
    → All IsPiece ps
    → Spells format 2 (spell_all ps ++ (0 ∷ []))
    → length (spell_all ps) < fuel
    → (out : Bytes) × (kernel_printf (suc fuel) format memory args buffer numbuf ≡ some out)
      × Printed buffer (37 ∷ text memory args 0 ps) out
unfolding kernel_printf
kernel_printf-past_end zero ps format memory args buffer numbuf percent end pieces spells h =
    absurd (omega arith)
kernel_printf-past_end (suc fuel) ps format memory args buffer numbuf percent end pieces spells h =
    (
      _,
      ap (option_map (λ (o : Output). store o.buffer o.buf_i 0)) (
          print_from-bare fuel format memory args numbuf 0 (record { buffer = buffer; buf_i = 0 })
            percent end refl
          ∙ print_from_lem format memory args numbuf (suc fuel) ps 2 0
              (put (record { buffer = buffer; buf_i = 0 }) 37) pieces spells h
          ∙ ap some (
              sym (
                append_room buffer_size (record { buffer = buffer; buf_i = 0 }) 37
                  (text memory args 0 ps) refl))),
      Printed-end buffer (37 ∷ text memory args 0 ps),
    )
