-- ===== src/Tests/Display.antt =====
-- shell/terminal.c on a terminal of two lines, and the drivers of the screen and the keyboard.
use almost_os.Prelude.{
  ℕ, ◌+◌, ◌<◌, ◌≡◌, inl, refl, true, some, List, [], ◌∷◌, of_list, arith, ltb, if◌then◌else◌,
}
use almost_os.Terminal.{
  Terminal, Draw, terminal_putchar, terminal_render_to_vga, terminal_get_current_line_count,
}
use almost_os.Terminal.Ring.{IsValid, enter_lines}
use almost_os.Drivers.Vga.{draw_all}
use almost_os.Drivers.Vga.Screen.{cell, shown, Outside, terminal_render_to_vga-draw_all}
use almost_os.Drivers.Keyboard.{polls, convert_scancode_to_ascii}
use almost_os.Drivers.Keyboard.Typing.{Stroke, scan_codes, polls-scan_codes}

-- A window of two lines from line 3 on, with one line `hi` and an input line.
abbrev hello : Terminal
hello = record {
  buffer = λ y x. of_list (104 ∷ 105 ∷ []) x;
  input_line = of_list [];
  input_cursor_position = 0;
  window_position_y = 3;
  window_size_y = 2;
  current_first_line = 24;
  current_end_line = 0;
  current_end_x = 2;
  is_input_enabled = true;
}

hello-IsValid : IsValid hello
unfolding terminal_get_current_line_count
hello-IsValid = record {
  first = omega arith;
  end_line = omega arith;
  end_x = omega arith;
  window = omega arith;
  lines = omega arith;
}

enter_lines_example :
    (terminal_get_current_line_count (terminal_putchar hello 10) ≡ (
      if ltb (terminal_get_current_line_count hello) 2
      then terminal_get_current_line_count hello + 1
      else 2))
    × ((terminal_putchar hello 10).current_end_line ≡ 1)
    × ((terminal_putchar hello 10).current_end_x ≡ 0)
enter_lines_example = enter_lines hello-IsValid

terminal_render_to_vga-draw_all_example :
    (draws : List Draw) × (terminal_render_to_vga hello ≡ some draws)
    × ((x y : ℕ)
        → x < 80
        → draw_all (of_list []) draws (cell x y) ≡ shown draws x y (of_list [] (cell x y)))
    × ((k : ℕ) → Outside 3 (3 + 2 + 1) k → draw_all (of_list []) draws k ≡ of_list [] k)
terminal_render_to_vga-draw_all_example =
    terminal_render_to_vga-draw_all hello (of_list []) hello-IsValid (omega arith)

-- `i` held, then `h`, and `h` once more
abbrev three_keys : List Stroke
three_keys =
    record { key = 23; again_down = 2; again_up = 0 }
    ∷ record { key = 35; again_down = 0; again_up = 1 }
    ∷ record { key = 35; again_down = 0; again_up = 0 }
    ∷ []

polls-scan_codes_example : (polls 0 (scan_codes three_keys)).1 ≡ 105 ∷ 104 ∷ 104 ∷ []
unfolding convert_scancode_to_ascii
polls-scan_codes_example =
    polls-scan_codes three_keys 0
      (
        (omega arith, omega arith, λ e. omega arith),
        (
          (omega arith, omega arith, λ e. omega arith),
          ((omega arith, omega arith, λ e. omega arith), tt),
        ),
      )
      (inl refl)
