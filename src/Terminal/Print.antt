-- ===== src/Terminal/Print.antt =====
-- shell/terminal.c, terminal_print and terminal_printline: they end, and stay in the window.
use almost_os.Prelude.{
  ℕ, zero, suc, ◌+◌, ◌%◌, ◌≤◌, ◌<◌, ◌≡◌, ◌≢◌, ◌∙◌, refl, ap, true, false, some, List, [], ◌++◌, All,
  Bytes, arith, ltb, leb, ◌==◌, if◌then◌else◌, Bool-cases, inl, inr, Option, none,
}
use almost_os.Prelude.Maybe.{option_map, ◌>>=◌}
use almost_os.Terminal.{
  Terminal, Draw, terminal_putchar, terminal_putchar_draws, terminal_render_to_vga, print_from,
  terminal_print, terminal_printline, is_enter, is_backspace, terminal_get_next_free_line_buffer,
  put_in_line, put_in_some, last_line,
}
use almost_os.Terminal.Ring.{IsValid, terminal_putchar-IsValid}
use almost_os.Terminal.Render.{Inside, terminal_render_to_vga-Inside, All-++}

-- The last line that a window of the terminal reaches, with the input line, and 1.
abbrev pub bottom : Terminal → ℕ
bottom t = t.window_position_y + t.window_size_y + (if t.is_input_enabled then 1 else 0)

-- The window is where it was.
abbrev pub SameWindow : Terminal → Terminal → Type 0
SameWindow t t' =
    (t'.window_position_y ≡ t.window_position_y)
    × (t'.window_size_y ≡ t.window_size_y)
    × (t'.is_input_enabled ≡ t.is_input_enabled)

put_in_line-SameWindow : (t : Terminal) (line c : ℕ) → SameWindow t (put_in_line t line c)
unfolding put_in_line
put_in_line-SameWindow t line c = elim (Bool-cases (is_backspace c)) [
  | inl back ↦ elim (Bool-cases (ltb 0 (t.current_end_x % 80))) [
    | inl some_left ↦ rw (back, some_left) (refl, refl, refl)
    | inr nothing ↦ rw (back, nothing) (refl, refl, refl)
  ]
  | inr char ↦ rw char (refl, refl, refl)
]

next_free-SameWindow : (t : Terminal) → SameWindow t (terminal_get_next_free_line_buffer t).1
unfolding terminal_get_next_free_line_buffer
next_free-SameWindow t = elim (Bool-cases (leb 25 t.current_end_line)) [
  | inl past ↦ rw past (refl, refl, refl)
  | inr inside ↦ rw inside (refl, refl, refl)
]

SameWindow-trans : (t t' t'' : Terminal) → SameWindow t t' → SameWindow t' t'' → SameWindow t t''
SameWindow-trans t t' t'' (p, s, i) (p', s', i') = (p' ∙ p, s' ∙ s, i' ∙ i)

put_in_some-SameWindow :
    (t : Terminal) (line : Option ℕ) (c : ℕ) → SameWindow t (put_in_some t line c)
put_in_some-SameWindow t none c = (refl, refl, refl)
put_in_some-SameWindow t (some line) c = put_in_line-SameWindow t line c

pub terminal_putchar-SameWindow : (t : Terminal) (c : ℕ) → SameWindow t (terminal_putchar t c)
unfolding terminal_putchar
terminal_putchar-SameWindow t c =
    let (line, t') = terminal_get_next_free_line_buffer t in
    elim (Bool-cases (is_enter c)) [
      | inl enter ↦ rw enter (next_free-SameWindow t)
      | inr other ↦ elim (Bool-cases (leb 80 t.current_end_x)) [
        | inl is_full ↦
            rw (other, is_full)
              (SameWindow-trans t t' (put_in_some t' line c) (next_free-SameWindow t)
                (put_in_some-SameWindow t' line c))
        | inr room ↦ rw (other, room) (put_in_line-SameWindow t (last_line t) c)
      ]
    ]

-- A terminal that its functions leave, with what they have drawn: the bounds hold, the window is
-- where it was, and all is drawn inside it.
pub record Drawn (t : Terminal) (r : Terminal × List Draw) : Type 0 where
  pub valid : IsValid r.0
  pub window : SameWindow t r.0
  pub inside : All (Inside t.window_position_y (bottom t)) r.1

-- The outcome of a function that draws: it ends.
pub data Draws (t : Terminal) : Option (Terminal × List Draw) → Type 0 where
  drawn : (r : Terminal × List Draw) → Drawn t r → Draws t (some r)

pub render-Drawn :
    (t : Terminal)
    → IsValid t
    → (draws : List Draw) × (terminal_render_to_vga t ≡ some draws) × Drawn t (t, draws)
render-Drawn t v =
    let (draws, run, inside) = terminal_render_to_vga-Inside t v in
    (draws, run, record { valid = v; window = (refl, refl, refl); inside = inside })

pub putchar-Drawn :
    (t : Terminal) (c : ℕ)
    → IsValid t
    → (draws : List Draw) × (terminal_putchar_draws t c ≡ some draws)
      × Drawn t (terminal_putchar t c, draws)
unfolding terminal_putchar_draws
putchar-Drawn t c v = elim (Bool-cases (is_enter c)) [
  | inl enter ↦
      let (draws, run, inside) = terminal_render_to_vga-Inside t v in
      rw enter (
        draws,
        run,
        record {
          valid = terminal_putchar-IsValid c v;
          window = terminal_putchar-SameWindow t c;
          inside = inside;
        },
      )
  | inr other ↦ rw other (
    [],
    refl,
    record {
      valid = terminal_putchar-IsValid c v;
      window = terminal_putchar-SameWindow t c;
      inside = tt;
    },
  )
]

-- One outcome after the other.
pub Drawn-trans :
    (t t' t'' : Terminal) (draws draws' : List Draw)
    → Drawn t (t', draws)
    → Drawn t' (t'', draws')
    → Drawn t (t'', draws ++ draws')
Drawn-trans t t' t'' draws draws' first second = record {
  valid = second.valid;
  window = SameWindow-trans t t' t'' first.window second.window;
  inside =
      All-++ (Inside t.window_position_y (bottom t)) draws draws' first.inside
        (rw (first.window.0, first.window.1, first.window.2) at second.inside);
}

Draws-append :
    (t t' : Terminal) (draws : List Draw) (o : Option (Terminal × List Draw))
    → Drawn t (t', draws)
    → Draws t' o
    → Draws t (option_map (λ (t'', draws'). (t'', draws ++ draws')) o)
Draws-append t t' draws o first (drawn (t'', draws') second) =
    drawn (t'', draws ++ draws') (Drawn-trans t t' t'' draws draws' first second)

print_from-Draws :
    (fuel n i : ℕ) (t : Terminal) (string : Bytes)
    → IsValid t
    → ((j : ℕ) → i ≤ j → j < i + n → string j ≢ 0)
    → string (i + n) ≡ 0
    → n < fuel
    → Draws t (print_from fuel t string i)
unfolding print_from
print_from-Draws zero n i t string v inner end h = absurd (omega arith)
print_from-Draws (suc fuel) zero i t string v inner end h =
    let here : i + 0 ≡ i = omega arith in
    let stop : (string i == 0) ≡ true = ground (arith, end, ap string here) in
    rw stop (drawn (t, []) (record { valid = v; window = (refl, refl, refl); inside = tt }))
print_from-Draws (suc fuel) (suc n) i t string v inner end h =
    let go : (string i == 0) ≡ false = ground (arith, inner i (omega arith) (omega arith)) in
    let (draws, run, first) = putchar-Drawn t (string i) v in
    let t' = terminal_putchar t (string i) in
    rw (go, run)
      (Draws-append t t' draws (print_from fuel t' string (i + 1)) first (
        print_from-Draws fuel n (i + 1) t' string first.valid
          (λ j p q. inner j (omega arith) (omega arith)) (ap string (omega arith) ∙ end)
          (omega arith)))

Draws-render :
    (t : Terminal) (o : Option (Terminal × List Draw))
    → Draws t o
    → Draws t (
        o >>= (λ (t', draws).
          option_map (λ others. (t', draws ++ others)) (terminal_render_to_vga t')))
Draws-render t o (drawn (t', draws) first) =
    let (others, run, last) = render-Drawn t' first.valid in
    rw run (drawn (t', draws ++ others) (Drawn-trans t t' t' draws others first last))

-- On a terminal whose bounds hold, the print of a string comes to an end if there is fuel for its
-- characters. The bounds hold after it, the window is where it was, and what is drawn is inside it.
pub terminal_print-Draws :
    (fuel n : ℕ) (t : Terminal) (string : Bytes)
    → IsValid t
    → ((j : ℕ) → j < n → string j ≢ 0)
    → string n ≡ 0
    → n < fuel
    → Draws t (terminal_print fuel t string)
unfolding terminal_print
terminal_print-Draws fuel n t string v inner end h = Draws-render t (print_from fuel t string 0) (
    print_from-Draws fuel n 0 t string v (λ j p q. inner j (omega (arith, q)))
      (ap string (omega arith) ∙ end) h)

Draws-enter :
    (t : Terminal) (o : Option (Terminal × List Draw))
    → Draws t o
    → Draws t (
        o >>= (λ (t', draws). terminal_putchar_draws t' 10 >>= (λ others.
          option_map
            (λ final. (terminal_putchar t' 10, draws ++ (others ++ final)))
            (terminal_render_to_vga (terminal_putchar t' 10)))))
Draws-enter t o (drawn (t', draws) first) =
    let ended = terminal_putchar t' 10 in
    let (others, run, put) = putchar-Drawn t' 10 first.valid in
    let (final, run', last) = render-Drawn ended put.valid in
    rw (run, run')
      (drawn (ended, draws ++ (others ++ final))
        (Drawn-trans t t' ended draws (others ++ final) first
          (Drawn-trans t' ended ended others final put last)))

-- The same for `terminal_printline`.
pub terminal_printline-Draws :
    (fuel n : ℕ) (t : Terminal) (string : Bytes)
    → IsValid t
    → ((j : ℕ) → j < n → string j ≢ 0)
    → string n ≡ 0
    → n < fuel
    → Draws t (terminal_printline fuel t string)
unfolding terminal_printline
terminal_printline-Draws fuel n t string v inner end h =
    Draws-enter t (terminal_print fuel t string)
      (terminal_print-Draws fuel n t string v inner end h)
