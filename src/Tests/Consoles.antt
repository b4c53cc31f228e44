-- ===== src/Tests/Consoles.antt =====
-- kernel_stdio.c over terminals without text.
use almost_os.Prelude.{
  ℕ, zero, suc, ◌<◌, ◌≡◌, ◌≢◌, refl, Bool, true, false, some, [], ◌∷◌, Bytes, of_list, arith,
}
use almost_os.Terminal.{Terminal, terminal_get_current_line_count}
use almost_os.Terminal.Ring.{IsValid}
use almost_os.Stdio.Console.{Console, kernel_stdio_init, kernel_print, log}
use almost_os.Stdio.Console.Windows.{
  IsReady, Prints, kernel_print-Prints, kernel_stdio_init-IsReady,
}
use almost_os.Stdio.Console.Logging.{Logs, log-Logs}

abbrev pub window_at : ℕ → ℕ → Bool → Terminal
window_at y size input = record {
  buffer = λ line x. 32;
  input_line = of_list [];
  input_cursor_position = 0;
  window_position_y = y;
  window_size_y = size;
  current_first_line = 0;
  current_end_line = 0;
  current_end_x = 0;
  is_input_enabled = input;
}

abbrev pub two_windows : Console
two_windows = record {
  shell_terminal = window_at 0 17 true;
  log_terminal = window_at 20 5 false;
  vga_ram = of_list [];
  serial = [];
}

window-IsValid : (y size : ℕ) (input : Bool) → size < 24 → IsValid (window_at y size input)
unfolding terminal_get_current_line_count
window-IsValid y size input h = record {
  first = omega arith;
  end_line = omega arith;
  end_x = omega arith;
  window = h;
  lines = omega arith;
}

pub two_windows-IsReady : IsReady two_windows
two_windows-IsReady = record {
  shell = window-IsValid 0 17 true (omega arith);
  shell_top = refl;
  shell_size = refl;
  shell_input = refl;
  log = window-IsValid 20 5 false (omega arith);
  log_top = refl;
  log_size = refl;
  log_input = refl;
}

-- `ok`
abbrev ok : Bytes
ok = of_list (111 ∷ 107 ∷ [])

inner_ok : (j : ℕ) → j < 2 → ok j ≢ 0
inner_ok zero h = λ e. omega arith
inner_ok (suc zero) h = λ e. omega arith
inner_ok (suc (suc j)) h = absurd (omega arith)

kernel_print-Prints_example : Prints two_windows (111 ∷ 107 ∷ []) (kernel_print 3 two_windows ok)
kernel_print-Prints_example =
    kernel_print-Prints 3 2 two_windows ok two_windows-IsReady inner_ok refl (omega arith)

log-Logs_example : Logs two_windows (log 80 two_windows 4660 ok)
log-Logs_example =
    log-Logs 80 4660 2 two_windows ok two_windows-IsReady (omega arith) inner_ok refl (omega arith)

kernel_stdio_init-IsReady_example :
    (c' : Console) × (kernel_stdio_init two_windows ≡ some c') × IsReady c'
kernel_stdio_init-IsReady_example =
    kernel_stdio_init-IsReady two_windows (omega arith) (omega arith)
