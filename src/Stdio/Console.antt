-- ===== src/Stdio/Console.antt =====
-- kernel_stdio.c over the two terminals: what is printed goes to the screen's memory and to the
-- serial port. The fuel is that of the searches for the end of a string.
pub mod Windows
pub mod Logging
use almost_os.Prelude.{
  ℕ, zero, suc, ◌+◌, ◌*◌, ◌||◌, true, false, Option, none, some, List, [], ◌∷◌, ◌++◌, Bytes,
  of_list, bit_and, ◌==◌, if◌then◌else◌,
}
use almost_os.Prelude.Maybe.{◌>>=◌, option_map}
use almost_os.Util.Strings.{strlen_unsafe_logless, append_string}
use almost_os.Util.Numbers.{long_to_hex}
use almost_os.Terminal.{
  Terminal, Draw, max_x, terminal_init, terminal_init_draws, terminal_print, terminal_printline,
  terminal_putchar, terminal_putchar_draws, terminal_render_to_vga,
}
use almost_os.Drivers.Ports.{PortWrite, tty_write, tty_read}
use almost_os.Drivers.Vga.{draw_all, print_string_to_vga_display_buffer}
use almost_os.Stdio.{kernel_printf}

-- The static terminals, the memory of the screen, and what has gone to the serial port. The
-- registers of the cursor, which the rendering sets to a place off the screen, are left out.
pub record Console : Type 0 where
  pub shell_terminal : Terminal
  pub log_terminal : Terminal
  pub vga_ram : Bytes
  pub serial : List PortWrite

-- `klog_header`: `/ KERNEL LOG /` between 32 and 33 dashes, 79 characters
abbrev pub klog_header : Bytes
klog_header = of_list (
    45 ∷ 45 ∷ 45 ∷ 45 ∷ 45 ∷ 45 ∷ 45 ∷ 45 ∷ 45 ∷ 45 ∷ 45 ∷ 45 ∷ 45 ∷ 45 ∷ 45 ∷ 45 ∷ 45 ∷ 45 ∷ 45
    ∷ 45 ∷ 45 ∷ 45 ∷ 45 ∷ 45 ∷ 45 ∷ 45 ∷ 45 ∷ 45 ∷ 45 ∷ 45 ∷ 45 ∷ 45 ∷ 47 ∷ 32 ∷ 75 ∷ 69 ∷ 82 ∷ 78
    ∷ 69 ∷ 76 ∷ 32 ∷ 76 ∷ 79 ∷ 71 ∷ 32 ∷ 47 ∷ 45 ∷ 45 ∷ 45 ∷ 45 ∷ 45 ∷ 45 ∷ 45 ∷ 45 ∷ 45 ∷ 45 ∷ 45
    ∷ 45 ∷ 45 ∷ 45 ∷ 45 ∷ 45 ∷ 45 ∷ 45 ∷ 45 ∷ 45 ∷ 45 ∷ 45 ∷ 45 ∷ 45 ∷ 45 ∷ 45 ∷ 45 ∷ 45 ∷ 45 ∷ 45
    ∷ 45 ∷ 45 ∷ 45 ∷ [])

-- A terminal's functions leave it, and draw on the screen.
abbrev pub drawn_shell : Console → Terminal × List Draw → Console
drawn_shell c (t, draws) = record c { shell_terminal = t; vga_ram = draw_all c.vga_ram draws }

abbrev pub drawn_log : Console → Terminal × List Draw → Console
drawn_log c (t, draws) = record c { log_terminal = t; vga_ram = draw_all c.vga_ram draws }

-- `kernel_stdio_init`
unfoldable pub kernel_stdio_init : Console → Option Console
kernel_stdio_init c =
    let lined = record c {
      vga_ram = print_string_to_vga_display_buffer c.vga_ram (19 * 80) klog_header 79;
    } in
    terminal_init_draws c.shell_terminal 0 17 true >>= (λ draws.
      let shown = drawn_shell lined (terminal_init c.shell_terminal 0 17 true, draws) in
      option_map (λ others. drawn_log shown (terminal_init c.log_terminal 20 5 false, others))
        (terminal_init_draws c.log_terminal 20 5 false))

-- The buffer of `LOG` before the timestamp: `AbcdAbcd: `
abbrev pub log_template : Bytes
log_template = of_list (65 ∷ 98 ∷ 99 ∷ 100 ∷ 65 ∷ 98 ∷ 99 ∷ 100 ∷ 58 ∷ 32 ∷ [])

-- The line that `LOG` prints
unfoldable pub log_line : ℕ → ℕ → Bytes → Option Bytes
log_line fuel timestamp message =
    append_string fuel (long_to_hex timestamp log_template 8 16).0 max_x message
      (strlen_unsafe_logless (some message) + 1)

-- `LOG`, with what `get_timestamp` answers
unfoldable pub log : ℕ → Console → ℕ → Bytes → Option Console
log fuel c timestamp message =
    log_line fuel timestamp message
    >>= (λ line. option_map (drawn_log c) (terminal_printline fuel c.log_terminal line))

-- The loop of `kernel_print` over the serial port, from character `i`
unfoldable pub write_from : ℕ → ℕ → Bytes → Option (List PortWrite)
write_from zero i message = none
write_from (suc fuel) i message =
    let rest = write_from fuel (i + 1) message in
    if message i == 0 then some [] else option_map (λ others. tty_write (message i) ++ others) rest

-- `kernel_print`
unfoldable pub kernel_print : ℕ → Console → Bytes → Option Console
kernel_print fuel c message = terminal_print fuel c.shell_terminal message >>= (λ r.
    option_map (λ bytes. record (drawn_shell c r) { serial = c.serial ++ bytes })
      (write_from fuel 0 message))

-- `kernel_println`
unfoldable pub kernel_println : ℕ → Console → Bytes → Option Console
kernel_println fuel c message =
    kernel_print fuel c message >>= (λ c'. kernel_print fuel c' (of_list (10 ∷ [])))

-- `kernel_printf`, with the print at its end
unfoldable pub kernel_printf_print :
    ℕ → Console → Bytes → Bytes → (ℕ → ℕ) → Bytes → Bytes → Option Console
kernel_printf_print fuel c format memory args buffer numbuf =
    kernel_printf fuel format memory args buffer numbuf >>= kernel_print fuel c

-- What `kernel_putchar` sends to the serial port
abbrev pub putchar_bytes : ℕ → List PortWrite
putchar_bytes new_char =
    if new_char == 8 || new_char == 127
    then tty_write 8 ++ (tty_write 32 ++ tty_write 8)
    else tty_write new_char

-- `kernel_putchar`
unfoldable pub kernel_putchar : Console → ℕ → Option Console
kernel_putchar c new_char = terminal_putchar_draws c.shell_terminal new_char >>= (λ draws.
    let t = terminal_putchar c.shell_terminal new_char in
    option_map
      (λ others. record (drawn_shell c (t, draws ++ others)) {
        serial = c.serial ++ putchar_bytes new_char;
      })
      (terminal_render_to_vga t))

-- `tty_input_poll` of kernel_main.c: the key that it hands to `event_on_keypress`, if there is one
unfoldable pub tty_input_poll : ℕ → ℕ → Option ℕ
tty_input_poll line_status byte =
    let val = tty_read line_status byte in if val == 255 then none else some (bit_and val 127)
