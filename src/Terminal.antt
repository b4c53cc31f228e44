-- ===== src/Terminal.antt =====
-- shell/terminal.c and shell/terminal.h: a window of text lines over a circular buffer. Each
-- function gives the context it leaves and the characters it draws, as (x, y, character). A NULL
-- context, for which the functions print a message and return, is not modelled, nor are negative
-- window coordinates.
pub mod Ring
pub mod Render
pub mod Print
use almost_os.Prelude.{
  ℕ, zero, suc, ◌+◌, ◌-◌, ◌%◌, Bool, true, false, ◌||◌, ◌&&◌, Option, none, some, List, [], ◌∷◌,
  ◌++◌, Bytes, ltb, leb, ◌==◌, if◌then◌else◌,
}
use almost_os.Prelude.Maybe.{option_map, ◌>>=◌}

-- `TERMINAL_MAX_X`
abbrev pub max_x : ℕ
max_x = 80

-- `TERMINAL_MAX_Y`
abbrev pub max_y : ℕ
max_y = 25

-- `sizeof(input_line)`
abbrev pub input_line_size : ℕ
input_line_size = 78

-- `terminal_contex_t`: `buffer y x` is a character of the circular buffer.
pub record Terminal : Type 0 where
  pub buffer : ℕ → ℕ → ℕ
  pub input_line : Bytes
  pub input_cursor_position : ℕ
  pub window_position_y : ℕ
  pub window_size_y : ℕ
  pub current_first_line : ℕ
  pub current_end_line : ℕ
  pub current_end_x : ℕ
  pub is_input_enabled : Bool

abbrev pub Draw : Type 0
Draw = ℕ × ℕ × ℕ

-- `terminal_get_current_line_count`
unfoldable pub terminal_get_current_line_count : Terminal → ℕ
terminal_get_current_line_count t =
    if leb t.current_first_line t.current_end_line
    then t.current_end_line - t.current_first_line
    else max_y - t.current_first_line + t.current_end_line

-- `terminal_get_next_line_buffer`
abbrev pub terminal_get_next_line_buffer : ℕ → ℕ
terminal_get_next_line_buffer current_line =
    if leb max_y (current_line + 1) then 0 else current_line + 1

-- `buffer[y][x] = c`
abbrev pub set_char : (ℕ → ℕ → ℕ) → ℕ → ℕ → ℕ → ℕ → ℕ → ℕ
set_char buffer y x c y' x' =
    if y' == y then (if x' == x then c else buffer y' x') else buffer y' x'

-- The loop that clears the `max_x` characters of a line.
abbrev pub clear_line : (ℕ → ℕ → ℕ) → ℕ → ℕ → ℕ → ℕ
clear_line buffer y y' x' =
    if y' == y then (if ltb x' max_x then 0 else buffer y' x') else buffer y' x'

-- `terminal_get_next_free_line_buffer`; the line it gives is its index, `none` for NULL.
unfoldable pub terminal_get_next_free_line_buffer : Terminal → Option ℕ × Terminal
terminal_get_next_free_line_buffer t =
    if leb max_y t.current_end_line
    then (none, t)
    else let free_line = t.current_end_line in
      let ended = record t {
        current_end_line = terminal_get_next_line_buffer t.current_end_line;
      } in
      let started = record ended {
        current_first_line =
            if ltb t.window_size_y (terminal_get_current_line_count ended)
            then terminal_get_next_line_buffer t.current_first_line
            else t.current_first_line;
      } in
      (some free_line, record started { buffer = clear_line t.buffer free_line })

-- `n` characters of a line of text from `x` on, drawn at line `y`.
unfoldable pub draw_line : ℕ → ℕ → ℕ → Bytes → List Draw
draw_line zero x y line = []
draw_line (suc n) x y line = (x, y, line x) ∷ draw_line n (x + 1) y line

-- The lines of the window, from `n` lines on: `terminal_clear_VGA`.
unfoldable pub clear_lines : ℕ → ℕ → List Draw
clear_lines zero y = []
clear_lines (suc n) y = draw_line max_x 0 y (λ x. 32) ++ clear_lines n (y + 1)

abbrev pub terminal_clear_vga : Terminal → List Draw
terminal_clear_vga t = clear_lines t.window_size_y t.window_position_y

-- The loop of `terminal_render_to_VGA` over the lines from `current_line` on, with the number of
-- lines drawn after it;
-- `none` if the test of the loop is made more than `fuel` times.
unfoldable pub render_lines : ℕ → Terminal → ℕ → ℕ → Option (List Draw × ℕ)
render_lines zero t current_line line_counter = none
render_lines (suc fuel) t current_line line_counter =
    let rest =
      render_lines fuel t (terminal_get_next_line_buffer current_line) (line_counter + 1) in
    let y = t.window_position_y + line_counter in
    if current_line == t.current_end_line
    then some ([], line_counter)
    else option_map
        (λ (draws, count). (draw_line max_x 0 y (t.buffer current_line) ++ draws, count)) rest

-- `terminal_render_to_VGA`; the buffer has `max_y` lines.
unfoldable pub terminal_render_to_vga : Terminal → Option (List Draw)
terminal_render_to_vga t =
    option_map
      (λ (draws, line_counter).
        if t.is_input_enabled
        then draws ++ draw_line input_line_size 0 (t.window_position_y + line_counter) t.input_line
        else draws)
      (render_lines max_y t t.current_first_line 0)

-- The characters `\n` and `\r`, backspace and delete.
abbrev pub is_enter : ℕ → Bool
is_enter c = c == 10 || c == 13

abbrev pub is_backspace : ℕ → Bool
is_backspace c = c == 8 || c == 127

-- What `terminal_putchar` does to a line that it has found.
unfoldable pub put_in_line : Terminal → ℕ → ℕ → Terminal
put_in_line t line new_char =
    let pos_x = t.current_end_x % max_x in
    if is_backspace new_char
    then if ltb 0 pos_x
      then record t {
        buffer = set_char t.buffer line (pos_x - 1) 32;
        current_end_x = t.current_end_x - 1;
      }
      else t
    else record t { buffer = set_char t.buffer line pos_x new_char; current_end_x = pos_x + 1 }

-- A full line's successor takes the character, unless it is NULL.
abbrev pub put_in_some : Terminal → Option ℕ → ℕ → Terminal
put_in_some t none new_char = t
put_in_some t (some line) new_char = put_in_line t line new_char

-- The line before the end of the buffer, in `terminal_putchar`.
abbrev pub last_line : Terminal → ℕ
last_line t = if t.current_end_line == 0 then max_y - 1 else t.current_end_line - 1

-- `terminal_putchar` without what it draws: only a line end draws, and that before it changes
-- anything.
unfoldable pub terminal_putchar : Terminal → ℕ → Terminal
terminal_putchar t new_char =
    let (line_buf, t') = terminal_get_next_free_line_buffer t in
    if is_enter new_char
    then record t' { current_end_x = 0 }
    else if leb max_x t.current_end_x
    then put_in_some t' line_buf new_char
    else put_in_line t (last_line t) new_char

-- What `terminal_putchar` draws.
unfoldable pub terminal_putchar_draws : Terminal → ℕ → Option (List Draw)
terminal_putchar_draws t new_char = if is_enter new_char then terminal_render_to_vga t else some []

-- The loop of `terminal_print` over the string from offset `i`; `none` if it has `fuel` characters
-- or more.
unfoldable pub print_from : ℕ → Terminal → Bytes → ℕ → Option (Terminal × List Draw)
print_from zero t string i = none
print_from (suc fuel) t string i =
    let rest = print_from fuel (terminal_putchar t (string i)) string (i + 1) in
    if string i == 0
    then some (t, [])
    else terminal_putchar_draws t (string i)
      >>= (λ draws. option_map (λ (t', others). (t', draws ++ others)) rest)

-- `terminal_print`
unfoldable pub terminal_print : ℕ → Terminal → Bytes → Option (Terminal × List Draw)
terminal_print fuel t string =
    print_from fuel t string 0
    >>= (λ (t', draws). option_map (λ others. (t', draws ++ others)) (terminal_render_to_vga t'))

-- `terminal_printline`
unfoldable pub terminal_printline : ℕ → Terminal → Bytes → Option (Terminal × List Draw)
terminal_printline fuel t string = terminal_print fuel t string >>= (λ (t', draws).
    let ended = terminal_putchar t' 10 in
    terminal_putchar_draws t' 10 >>= (λ others.
      option_map (λ final. (ended, draws ++ (others ++ final))) (terminal_render_to_vga ended)))

-- `terminal_init`, over the context that it fills.
unfoldable pub terminal_init : Terminal → ℕ → ℕ → Bool → Terminal
terminal_init t window_position_y window_size_y is_input_enabled = record t {
  is_input_enabled = is_input_enabled;
  buffer = λ y x. if ltb y max_y && ltb x max_x then 32 else t.buffer y x;
  window_size_y = if leb max_y window_size_y then max_y else window_size_y;
  window_position_y = if leb max_y window_position_y then max_y else window_position_y;
  current_first_line = 0;
  current_end_line = 0;
}

-- What `terminal_init` draws.
unfoldable pub terminal_init_draws : Terminal → ℕ → ℕ → Bool → Option (List Draw)
terminal_init_draws t window_position_y window_size_y is_input_enabled =
    let t' = terminal_init t window_position_y window_size_y is_input_enabled in
    option_map (λ draws. terminal_clear_vga t' ++ draws) (terminal_render_to_vga t')
