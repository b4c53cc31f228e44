-- ===== src/Stdio/Inside.antt =====
-- kernel_stdio.c, kernel_printf: formats of any form, well formed or not.
use almost_os.Prelude.{
  ℕ, zero, suc, ◌+◌, ◌-◌, ◌*◌, u32, ◌≢◌, ◌≤◌, ◌<◌, ◌≡◌, refl, sym, ap, ◌∙◌, Bool, true, ◌||◌, ◌&&◌,
  Option, some, List, [], ◌∷◌, ◌++◌, Bytes, store, arith, ltb, leb, ◌==◌, Bool-cases, inl, inr,
  ℕ_discrete,
}
use almost_os.Prelude.Maybe.{option_map}
use almost_os.Stdio.{
  Output, put, buffer_size, print_directive, parse_width, after_flag, print_from, kernel_printf,
  signed32,
}
use almost_os.Prelude.Int.{rounds}
use almost_os.Stdio.Text.{append, append_room, append-++}
use almost_os.Stdio.Format.{directive_text, print_directive_lem}
use almost_os.Stdio.Printf.{print_from-directive}
use almost_os.Stdio.Bounds.{Printed-end, taken}

-- A directive appends some text, whatever its letter.
print_directive-text :
    (memory : Bytes) (args : ℕ → ℕ) (numbuf : Bytes) (letter width : ℕ) (zero_pad : Bool)
    (arg_index : ℕ) (o : Output)
    → ltb o.buf_i (buffer_size - 1) ≡ true
    → (t : List ℕ) × ((print_directive memory args numbuf letter width zero_pad arg_index o).0
        ≡ append buffer_size o t)
unfolding print_directive append
print_directive-text memory args numbuf letter width zero_pad arg_index o room =
    elim (ℕ_discrete letter 0) [
      | yes e ↦ (37 ∷ [], rw e (sym (append_room buffer_size o 37 [] room)))
      | no ne ↦ (
        (directive_text memory args letter width zero_pad arg_index).0,
        ap (λ (r : Output × ℕ). r.0)
            (print_directive_lem memory args numbuf letter width zero_pad arg_index o ne room),
      )
    ]

-- A width ends at the terminator, if not before.
parse_width-ends :
    (fuel i n width : ℕ) (format : Bytes)
    → i ≤ n
    → format n ≡ 0
    → n - i < fuel
    → (w k : ℕ) × (parse_width fuel format i width ≡ some (w, k)) × (i ≤ k) × (k ≤ n)
unfolding parse_width
parse_width-ends zero i n width format low end h = absurd (omega arith)
parse_width-ends (suc fuel) i n width format low end h =
    elim (Bool-cases (leb 48 (format i) && leb (format i) 57)) [
      | inl digit ↦
          let inside : (i ≡ n → ⊥) = λ e. ground (arith, digit, end, ap format e) in
          let (w, k, parsed, from, upto) =
            parse_width-ends fuel (i + 1) n (u32 (width * 10 + (format i - 48))) format
              (ground arith) end (ground arith) in
          (w, k, rw digit parsed, omega arith, upto)
      | inr other ↦ (rounds (signed32 width), i, rw other refl, omega arith, low)
    ]

-- A place that is no terminator is in front of both.
in_front :
    (i n : ℕ) (format : Bytes)
    → i ≤ n + 1
    → format n ≡ 0
    → format (n + 1) ≡ 0
    → format i ≢ 0
    → i < n
in_front i n format low end end' more = elim (ℕ_discrete i n) [
  | yes e ↦ absurd (more (ap format e ∙ end))
  | no ne ↦ elim (ℕ_discrete i (n + 1)) [
    | yes e ↦ absurd (more (ap format e ∙ end'))
    | no ne' ↦ omega arith
  ]
]

after_flag-le :
    (i n : ℕ) (format : Bytes)
    → i < n
    → format n ≡ 0
    → (i + 1 ≤ after_flag format (i + 1)) × (after_flag format (i + 1) ≤ n)
after_flag-le i n format low end = elim (Bool-cases (format (i + 1) == 48)) [
  | inl flag ↦
      let inside : i + 1 ≢ n = λ e. ground (arith, flag, end, ap format e) in
      rw flag (omega arith, ground arith)
  | inr none_there ↦ rw none_there (omega arith, omega arith)
]

joined :
    (r r' : Option Output) (o o' : Output) (s t : List ℕ)
    → r ≡ r'
    → o' ≡ append buffer_size o s
    → r' ≡ some (append buffer_size o' t)
    → r ≡ some (append buffer_size o (s ++ t))
joined r r' o o' s t run e rest =
    run
    ∙ rest
    ∙ ap some (ap (λ (x : Output). append buffer_size x t) e ∙ sym (append-++ buffer_size o s t))

-- With two terminators at `n` the loop comes to an end, and it has appended some text.
print_from-ends :
    (fuel i n : ℕ) (format memory : Bytes) (args : ℕ → ℕ) (numbuf : Bytes) (arg_index : ℕ)
    (o : Output)
    → i ≤ n + 1
    → format n ≡ 0
    → format (n + 1) ≡ 0
    → n + 1 - i < fuel
    → (t : List ℕ) × (print_from fuel format memory args numbuf i arg_index o
        ≡ some (append buffer_size o t))
unfolding print_from append
print_from-ends zero i n format memory args numbuf arg_index o low end end' h = absurd (omega arith)
print_from-ends (suc fuel) i n format memory args numbuf arg_index o low end end' h =
    elim (Bool-cases (format i == 0 || leb (buffer_size - 1) o.buf_i)) [
      | inl stop ↦ ([], rw stop refl)
      | inr more ↦
          let room : ltb o.buf_i (buffer_size - 1) ≡ true = ground (arith, more) in
          let before : i < n = in_front i n format low end end' (λ z. ground (arith, more, z)) in
          let (first, last) = after_flag-le i n format before end in
          elim (Bool-cases (format i == 37)) [
            | inl percent ↦
                let (width, k, parsed, from, upto) =
                  parse_width-ends fuel (after_flag format (i + 1)) n 0 format last end
                    (omega arith) in
                let (s, e) =
                  print_directive-text memory args numbuf (format k) width (format (i + 1) == 48)
                    arg_index o room in
                let (t, rest) =
                  print_from-ends fuel (k + 1) n format memory args numbuf
                    (print_directive memory args numbuf (format k) width (format (i + 1) == 48)
                      arg_index o).1
                    (print_directive memory args numbuf (format k) width (format (i + 1) == 48)
                      arg_index o).0
                    (omega arith) end end' (omega arith) in
                (
                  s ++ t,
                  joined _ _ o _ s t
                      (print_from-directive format memory args numbuf fuel i arg_index width k o
                        (ground (arith, percent)) room parsed)
                      e rest,
                )
            | inr plain ↦
                let (t, rest) =
                  print_from-ends fuel (i + 1) n format memory args numbuf arg_index
                    (put o (format i)) (omega arith) end end' (omega arith) in
                (
                  format i ∷ t,
                  rw (more, plain)
                      (rest ∙ ap some (sym (append_room buffer_size o (format i) t room))),
                )
          ]
    ]

-- A format of any form with two terminators behind it, at `n` and `n + 1`, and a fuel above `n + 1`:
-- `kernel_printf` comes to an end, whatever the directives are and wherever the last one stops, and
-- writes inside its buffer. What lies behind the 256 characters is as before, and a 0 ends the text
-- inside.
pub kernel_printf_bounds :
    (fuel n : ℕ) (format memory : Bytes) (args : ℕ → ℕ) (buffer numbuf : Bytes)
    → format n ≡ 0
    → format (n + 1) ≡ 0
    → n + 1 < fuel
    → (out : Bytes) × (kernel_printf fuel format memory args buffer numbuf ≡ some out)
      × ((j : ℕ) → buffer_size ≤ j → out j ≡ buffer j)
      × ((m : ℕ) × (m < buffer_size) × (out m ≡ 0))
unfolding kernel_printf
kernel_printf_bounds fuel n format memory args buffer numbuf end end' h =
    let (t, run) =
      print_from-ends fuel 0 n format memory args numbuf 0 (record { buffer = buffer; buf_i = 0 })
        (omega arith) end end' (omega arith) in
    let printed = Printed-end buffer t in
    let o = append buffer_size (record { buffer = buffer; buf_i = 0 }) t in
    (
      store o.buffer o.buf_i 0,
      ap (option_map (λ (o : Output). store o.buffer o.buf_i 0)) run,
      λ j far. ground (arith, printed j),
      (taken 255 t, ground arith, ground (arith, printed (taken 255 t))),
    )
