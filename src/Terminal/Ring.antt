-- ===== src/Terminal/Ring.antt =====
-- shell/terminal.c: the circular buffer of a terminal's lines.
use almost_os.Prelude.{
  ℕ, ◌+◌, ◌-◌, ◌&&◌, ◌%◌, ◌≤◌, ◌<◌, ◌≡◌, refl, true, false, some, arith, ltb, leb, ◌==◌,
  if◌then◌else◌, Bool-cases, inl, inr,
}
use almost_os.Terminal.{
  Terminal, terminal_get_current_line_count, terminal_get_next_line_buffer,
  terminal_get_next_free_line_buffer, is_enter, is_backspace, put_in_line, last_line,
  terminal_putchar,
}

-- The bounds that keep every access inside the buffer; the window holds the lines in use. With 24
-- lines in use, one more would meet the first line and leave none.
pub record IsValid (t : Terminal) : Type 0 where
  pub first : t.current_first_line < 25
  pub end_line : t.current_end_line < 25
  pub end_x : t.current_end_x ≤ 80
  pub window : t.window_size_y < 24
  pub lines : terminal_get_current_line_count t ≤ t.window_size_y

module _ {t : Terminal} (v : IsValid t) where
  free_line_found : (terminal_get_next_free_line_buffer t).0 ≡ some t.current_end_line
  unfolding terminal_get_next_free_line_buffer
  free_line_found =
      let inside : leb 25 t.current_end_line ≡ false = ground (arith, v.end_line) in rw inside refl

  next_free-IsValid : IsValid (terminal_get_next_free_line_buffer t).1
  unfolding terminal_get_next_free_line_buffer terminal_get_current_line_count
  next_free-IsValid =
      let inside : leb 25 t.current_end_line ≡ false = ground (arith, v.end_line) in
      rw inside (record {
        first = ground (arith, v.first);
        end_line = ground (arith, v.end_line);
        end_x = v.end_x;
        window = v.window;
        lines = ground (arith, v.lines, v.first, v.end_line, v.window);
      })

  put_in_line-IsValid : (line c : ℕ) → IsValid (put_in_line t line c)
  unfolding put_in_line terminal_get_current_line_count
  put_in_line-IsValid line c = elim (Bool-cases (is_backspace c)) [
    | inl back ↦ elim (Bool-cases (ltb 0 (t.current_end_x % 80))) [
      | inl some_left ↦
          rw (back, some_left)
            (record {
              first = v.first;
              end_line = v.end_line;
              end_x = omega (arith, v.end_x);
              window = v.window;
              lines = v.lines;
            })
      | inr nothing ↦ rw (back, nothing) v
    ]
    | inr char ↦ rw char (record {
      first = v.first;
      end_line = v.end_line;
      end_x = omega arith;
      window = v.window;
      lines = v.lines;
    })
  ]

  entered-IsValid : IsValid (record (terminal_get_next_free_line_buffer t).1 { current_end_x = 0 })
  unfolding terminal_get_current_line_count
  entered-IsValid =
      let n = next_free-IsValid in
      record {
        first = n.first;
        end_line = n.end_line;
        end_x = omega arith;
        window = n.window;
        lines = n.lines;
      }

-- Every character put on a terminal keeps its bounds: lines and columns inside the buffer, and no
-- more lines in use than the window has, which are at most 23.
pub terminal_putchar-IsValid :
    {t : Terminal} (new_char : ℕ) → IsValid t → IsValid (terminal_putchar t new_char)
unfolding terminal_putchar
terminal_putchar-IsValid {t} new_char v = elim (Bool-cases (is_enter new_char)) [
  | inl enter ↦ rw enter (entered-IsValid v)
  | inr other ↦ elim (Bool-cases (leb 80 t.current_end_x)) [
    | inl is_full ↦
        rw (other, is_full, free_line_found v)
          (put_in_line-IsValid (next_free-IsValid v) t.current_end_line new_char)
    | inr room ↦ rw (other, room) (put_in_line-IsValid v (last_line t) new_char)
  ]
]

-- The lines from the first one to the end of the buffer.
abbrev pub lines_between : ℕ → ℕ → ℕ
lines_between first end_line =
    if leb first end_line then end_line - first else 25 - first + end_line

step_lines :
    (first end_line window : ℕ)
    → first < 25
    → end_line < 25
    → window < 24
    → lines_between first end_line ≤ window
    → let next = terminal_get_next_line_buffer end_line in
      lines_between
        (if ltb window (lines_between first next)
          then terminal_get_next_line_buffer first
          else first)
        next
      ≡ (if ltb (lines_between first end_line) window
          then lines_between first end_line + 1
          else window)
step_lines first end_line window a b c h = ground arith

-- On a terminal whose bounds hold, Enter adds a line to those in use until the window is full, and
-- from then on drops the first line for each new one; the next line begins at column 0.
pub enter_lines :
    {t : Terminal}
    → IsValid t
    → (terminal_get_current_line_count (terminal_putchar t 10) ≡ (
        if ltb (terminal_get_current_line_count t) t.window_size_y
        then terminal_get_current_line_count t + 1
        else t.window_size_y))
      × ((terminal_putchar t 10).current_end_line
          ≡ terminal_get_next_line_buffer t.current_end_line)
      × ((terminal_putchar t 10).current_end_x ≡ 0)
unfolding terminal_putchar terminal_get_next_free_line_buffer terminal_get_current_line_count
enter_lines {t} v =
    let inside : leb 25 t.current_end_line ≡ false = ground (arith, v.end_line) in
    rw inside (
      step_lines t.current_first_line t.current_end_line t.window_size_y v.first v.end_line v.window
          v.lines,
      refl,
      refl,
    )

-- On a terminal whose bounds hold, a character that is no line end and no backspace goes behind
-- the end of the last line, if that has room, and changes no other character of the buffer; the
-- line then ends behind it.
pub put_char_lem :
    {t : Terminal} (c : ℕ)
    → IsValid t
    → t.current_end_x < 80
    → is_enter c ≡ false
    → is_backspace c ≡ false
    → ((y x : ℕ)
        → (terminal_putchar t c).buffer y x
          ≡ (if (y == last_line t) && (x == t.current_end_x) then c else t.buffer y x))
      × ((terminal_putchar t c).current_end_x ≡ t.current_end_x + 1)
      × ((terminal_putchar t c).current_end_line ≡ t.current_end_line)
unfolding terminal_putchar put_in_line
put_char_lem {t} c v room enter back =
    let open_line : leb 80 t.current_end_x ≡ false = ground arith in
    let column : t.current_end_x % 80 ≡ t.current_end_x = omega arith in
    rw (enter, open_line, back, column) (λ y x. ground arith, refl, refl)

-- On a terminal whose bounds hold, backspace takes back a character just put on a line with room
-- for two: the text ends where it did, a space stands there, and every other character of the
-- buffer is as it was.
pub backspace-put_char :
    {t : Terminal} (c : ℕ)
    → IsValid t
    → t.current_end_x < 79
    → is_enter c ≡ false
    → is_backspace c ≡ false
    → let t' = terminal_putchar (terminal_putchar t c) 8 in
      (t'.current_end_x ≡ t.current_end_x)
      × (t'.current_end_line ≡ t.current_end_line)
      × ((y x : ℕ)
          → t'.buffer y x
            ≡ (if (y == last_line t) && (x == t.current_end_x) then 32 else t.buffer y x))
unfolding terminal_putchar put_in_line
backspace-put_char {t} c v room enter back =
    let open_line : leb 80 t.current_end_x ≡ false = ground arith in
    let open_line' : leb 80 (t.current_end_x + 1) ≡ false = ground arith in
    let column : t.current_end_x % 80 ≡ t.current_end_x = omega arith in
    let column' : (t.current_end_x + 1) % 80 ≡ t.current_end_x + 1 = omega arith in
    let some_left : ltb 0 (t.current_end_x + 1) ≡ true = ground arith in
    let one_back : t.current_end_x + 1 - 1 ≡ t.current_end_x = omega arith in
    simp (enter, open_line, back, column, open_line', column', some_left, one_back)
      (refl, refl, λ y x. ground arith)
