-- ===== src/Terminal/Render.antt =====
-- shell/terminal.c: what a terminal draws.
use almost_os.Prelude.{
  ℕ, zero, suc, ◌+◌, ◌-◌, ◌≤◌, ◌<◌, ◌≡◌, refl, ap, Bool, true, false, some, List, [], ◌∷◌, ◌++◌,
  All, Bytes, arith, ◌==◌, if◌then◌else◌, ℕ_discrete,
}
use almost_os.Prelude.Maybe.{option_map}
use almost_os.Terminal.{
  Terminal, Draw, draw_line, render_lines, terminal_render_to_vga, terminal_get_next_line_buffer,
  terminal_get_current_line_count,
}
use almost_os.Terminal.Ring.{IsValid, lines_between}

-- A character drawn in columns below 80 and in lines from `top` up to `bottom`.
abbrev pub Inside : ℕ → ℕ → Draw → Type 0
Inside top bottom d = (d.0 < 80) × (top ≤ d.1) × (d.1 < bottom)

pub All-++ : (P : Draw → Type 0) (xs ys : List Draw) → All P xs → All P ys → All P (xs ++ ys)
All-++ P [] ys p q = q
All-++ P (x ∷ xs) ys p q = (p.0, All-++ P xs ys p.1 q)

widen :
    (top bottom top' bottom' : ℕ) (xs : List Draw)
    → top' ≤ top
    → bottom ≤ bottom'
    → All (Inside top bottom) xs
    → All (Inside top' bottom') xs
widen top bottom top' bottom' [] h k p = tt
widen top bottom top' bottom' (x ∷ xs) h k p =
    ((p.0.0, omega (arith, p.0.1), omega (arith, p.0.2)), widen top bottom top' bottom' xs h k p.1)

draw_line-Inside :
    (n x y : ℕ) (line : Bytes) → x + n ≤ 80 → All (Inside y (y + 1)) (draw_line n x y line)
unfolding draw_line
draw_line-Inside zero x y line h = tt
draw_line-Inside (suc n) x y line h =
    ((omega arith, omega arith, omega arith), draw_line-Inside n (x + 1) y line (omega arith))

total : (counter n : ℕ) → 1 ≤ n → counter + 1 + (n - 1) ≡ counter + n
total counter n h = omega arith

-- The loop ends after the lines in use, and draws them below each other.
render_lines_lem :
    (fuel : ℕ) (t : Terminal) (current counter n : ℕ)
    → current < 25
    → t.current_end_line < 25
    → lines_between current t.current_end_line ≡ n
    → n < fuel
    → (draws : List Draw) × (render_lines fuel t current counter ≡ some (draws, counter + n))
      × All (Inside (t.window_position_y + counter) (t.window_position_y + counter + n)) draws
unfolding render_lines
render_lines_lem zero t current counter n a b e enough = absurd (omega arith)
render_lines_lem (suc fuel) t current counter n a b e enough =
    elim (ℕ_discrete current t.current_end_line) [
      | yes at_end ↦
          let test : (current == t.current_end_line) ≡ true = ground arith in
          let empty : n ≡ 0 = ground arith in
          ([], rw (test, empty) (ap (λ k. some ([], k)) (omega arith)), tt)
      | no inside ↦
          let test : (current == t.current_end_line) ≡ false = ground arith in
          let left : 1 ≤ n = ground arith in
          let next = terminal_get_next_line_buffer current in
          let (draws, same, within) =
            render_lines_lem fuel t next (counter + 1) (n - 1) (ground arith) b (ground arith)
              (ground arith) in
          (
            draw_line 80 0 (t.window_position_y + counter) (t.buffer current) ++ draws,
            rw (test, same)
                (ap
                  (λ k.
                    some (
                      draw_line 80 0 (t.window_position_y + counter) (t.buffer current) ++ draws,
                      k,
                    ))
                  (total counter n left)),
            All-++ (Inside (t.window_position_y + counter) (t.window_position_y + counter + n))
                (draw_line 80 0 (t.window_position_y + counter) (t.buffer current)) draws
                (widen (t.window_position_y + counter) (t.window_position_y + counter + 1)
                  (t.window_position_y + counter) (t.window_position_y + counter + n) _
                  (omega arith) (ground arith)
                  (draw_line-Inside 80 0 (t.window_position_y + counter) (t.buffer current)
                    (omega arith)))
                (widen (t.window_position_y + (counter + 1))
                  (t.window_position_y + (counter + 1) + (n - 1)) (t.window_position_y + counter)
                  (t.window_position_y + counter + n) draws (omega arith) (ground arith) within),
          )
    ]

-- The input line comes below the lines in use.
input-Inside :
    (is_input : Bool) (y n size : ℕ) (line : Bytes) (draws : List Draw)
    → n ≤ size
    → All (Inside (y + 0) (y + 0 + n)) draws
    → All
        (Inside y (y + size + (if is_input then 1 else 0)))
        (if is_input then draws ++ draw_line 78 0 (y + (0 + n)) line else draws)
input-Inside false y n size line draws h within =
    widen (y + 0) (y + 0 + n) y (y + size + 0) draws (omega arith) (omega arith) within
input-Inside true y n size line draws h within =
    All-++ (Inside y (y + size + 1)) draws (draw_line 78 0 (y + (0 + n)) line)
      (widen (y + 0) (y + 0 + n) y (y + size + 1) draws (omega arith) (omega arith) within)
      (widen (y + (0 + n)) (y + (0 + n) + 1) y (y + size + 1) _ (omega arith) (omega arith)
        (draw_line-Inside 78 0 (y + (0 + n)) line (omega arith)))

-- Drawing a terminal whose bounds hold comes to an end. It stays in the 80 columns and in the
-- lines of the window, below which only the input line may come.
pub terminal_render_to_vga-Inside :
    (t : Terminal)
    → IsValid t
    → (draws : List Draw) × (terminal_render_to_vga t ≡ some draws)
      × All
          (Inside t.window_position_y
            (t.window_position_y + t.window_size_y + (if t.is_input_enabled then 1 else 0)))
          draws
unfolding terminal_render_to_vga terminal_get_current_line_count
terminal_render_to_vga-Inside t v =
    let n = lines_between t.current_first_line t.current_end_line in
    let (draws, same, within) =
      render_lines_lem 25 t t.current_first_line 0 n v.first v.end_line refl
        (omega (arith, v.lines, v.window)) in
    (
      _,
      ap
          (option_map (λ (drawn, count).
            if t.is_input_enabled
            then drawn ++ draw_line 78 0 (t.window_position_y + count) t.input_line
            else drawn))
          same,
      input-Inside t.is_input_enabled t.window_position_y n t.window_size_y t.input_line draws
          v.lines within,
    )
