-- ===== src/Stdio/Console/Windows.antt =====
-- kernel_stdio.c: the shell's window and the log's window share the screen.
use almost_os.Prelude.{
  ℕ, zero, suc, ◌+◌, ◌*◌, ◌≤◌, ◌<◌, ◌≡◌, ◌≢◌, ◌∙◌, refl, ap, inr, true, false, Bool, Option, some,
  List, [], ◌∷◌, ◌++◌, Bytes, bytes_of, arith, ◌==◌, if◌then◌else◌,
}
use almost_os.Prelude.Maybe.{◌>>=◌, option_map}
use almost_os.Terminal.{
  Terminal, Draw, terminal_init, terminal_init_draws, terminal_print,
  terminal_get_current_line_count,
}
use almost_os.Terminal.Ring.{IsValid}
use almost_os.Terminal.Print.{bottom, Drawn, Draws, drawn, terminal_print-Draws, render-Drawn}
use almost_os.Drivers.Ports.{PortWrite, com_port_tx, tty_write}
use almost_os.Drivers.Vga.{draw_all}
use almost_os.Drivers.Vga.Screen.{draw_all-Outside}
use almost_os.Stdio.Console.{Console, drawn_shell, kernel_print, write_from, kernel_stdio_init}

-- The windows of `kernel_stdio_init`: 17 lines and an input line from the first one on, and 5 lines
-- from line 20 on.
pub record IsReady (c : Console) : Type 0 where
  pub shell : IsValid c.shell_terminal
  pub shell_top : c.shell_terminal.window_position_y ≡ 0
  pub shell_size : c.shell_terminal.window_size_y ≡ 17
  pub shell_input : c.shell_terminal.is_input_enabled ≡ true
  pub log : IsValid c.log_terminal
  pub log_top : c.log_terminal.window_position_y ≡ 20
  pub log_size : c.log_terminal.window_size_y ≡ 5
  pub log_input : c.log_terminal.is_input_enabled ≡ false

-- What goes to the serial port, at 1016, for a character: the character, and a line feed behind a
-- carriage return.
abbrev pub sent_one : ℕ → List PortWrite
sent_one c = (1016, c) ∷ (if c == 13 then (1016, 10) ∷ [] else [])

-- The same for a text.
abbrev pub sent : List ℕ → List PortWrite
sent [] = []
sent (c ∷ cs) = sent_one c ++ sent cs

pub tty_write_lem : (c : ℕ) → tty_write c ≡ sent_one c
unfolding com_port_tx
tty_write_lem c = refl

-- What a print to the shell's terminal leaves alone, and what it sends.
pub record Printed (c : Console) (text : List ℕ) (c' : Console) : Type 0 where
  pub ready : IsReady c'
  pub same_log : c'.log_terminal ≡ c.log_terminal
  pub below : (k : ℕ) → 160 * 18 ≤ k → c'.vga_ram k ≡ c.vga_ram k
  pub serial : c'.serial ≡ c.serial ++ sent text

write_from_lem :
    (fuel n i : ℕ) (message : Bytes)
    → ((j : ℕ) → i ≤ j → j < i + n → message j ≢ 0)
    → message (i + n) ≡ 0
    → n < fuel
    → write_from fuel i message ≡ some (sent (bytes_of message i n))
unfolding write_from
write_from_lem zero n i message inner end h = absurd (omega arith)
write_from_lem (suc fuel) zero i message inner end h =
    let here : i + 0 ≡ i = omega arith in
    let stop : (message i == 0) ≡ true = ground (arith, end, ap message here) in rw stop refl
write_from_lem (suc fuel) (suc n) i message inner end h =
    let go : (message i == 0) ≡ false = ground (arith, inner i (omega arith) (omega arith)) in
    let rest =
      write_from_lem fuel n (i + 1) message (λ j p q. inner j (omega arith) (omega arith))
        (ap message (omega arith) ∙ end) (omega arith) in
    rw (go, rest, tty_write_lem (message i)) refl

-- After a drawing in the shell's window.
pub shell-IsReady :
    (c : Console) (r : Terminal × List Draw) (serial : List PortWrite)
    → IsReady c
    → Drawn c.shell_terminal r
    → IsReady (record (drawn_shell c r) { serial = serial })
shell-IsReady c r serial ready d = record {
  shell = d.valid;
  shell_top = d.window.0 ∙ ready.shell_top;
  shell_size = d.window.1 ∙ ready.shell_size;
  shell_input = d.window.2 ∙ ready.shell_input;
  log = ready.log;
  log_top = ready.log_top;
  log_size = ready.log_size;
  log_input = ready.log_input;
}

shell-bottom : (c : Console) → IsReady c → bottom c.shell_terminal ≡ 18
shell-bottom c ready = rw (ready.shell_top, ready.shell_size, ready.shell_input) refl

pub shell-below :
    (c : Console) (r : Terminal × List Draw) (k : ℕ)
    → IsReady c
    → Drawn c.shell_terminal r
    → 160 * 18 ≤ k
    → draw_all c.vga_ram r.1 k ≡ c.vga_ram k
shell-below c r k ready d h =
    draw_all-Outside r.1 c.vga_ram c.shell_terminal.window_position_y (bottom c.shell_terminal) k
      d.inside (omega (arith, shell-bottom c ready)) (inr (omega (arith, shell-bottom c ready)))

-- The outcome of a print.
pub data Prints (c : Console) (text : List ℕ) : Option Console → Type 0 where
  printed : (c' : Console) → Printed c text c' → Prints c text (some c')

Prints-of_Draws :
    (c : Console) (text : List ℕ) (o : Option (Terminal × List Draw))
    → IsReady c
    → Draws c.shell_terminal o
    → Prints c text (
        o >>= (λ r.
          option_map
            (λ bytes. record (drawn_shell c r) { serial = c.serial ++ bytes })
            (some (sent text))))
Prints-of_Draws c text o ready (drawn r d) =
    printed (record (drawn_shell c r) { serial = c.serial ++ sent text })
      (record {
        ready = shell-IsReady c r (c.serial ++ sent text) ready d;
        same_log = refl;
        below = λ k h. shell-below c r k ready d h;
        serial = refl;
      })

-- With the windows of the kernel, `kernel_print` of a string comes to an end if there is fuel for its
-- characters. The windows and bounds of both terminals hold after it, the log's terminal and the
-- screen from line 18 on are as they were, and each character has gone to the serial port, a line
-- feed behind each carriage return.
pub kernel_print-Prints :
    (fuel n : ℕ) (c : Console) (message : Bytes)
    → IsReady c
    → ((j : ℕ) → j < n → message j ≢ 0)
    → message n ≡ 0
    → n < fuel
    → Prints c (bytes_of message 0 n) (kernel_print fuel c message)
unfolding kernel_print
kernel_print-Prints fuel n c message ready inner end h =
    let writes =
      write_from_lem fuel n 0 message (λ j p q. inner j (omega (arith, q)))
        (ap message (omega arith) ∙ end) h in
    rw writes (
      Prints-of_Draws c (bytes_of message 0 n) (terminal_print fuel c.shell_terminal message) ready
        (terminal_print-Draws fuel n c.shell_terminal message ready.shell inner end h))

init-IsValid :
    (t : Terminal) (y size : ℕ) (input : Bool)
    → t.current_end_x ≤ 80
    → size < 24
    → IsValid (terminal_init t y size input)
unfolding terminal_init terminal_get_current_line_count
init-IsValid t y size input x h = record {
  first = omega arith;
  end_line = omega arith;
  end_x = x;
  window = ground arith;
  lines = omega arith;
}

init_window :
    (t : Terminal) (y size : ℕ) (input : Bool)
    → y < 25
    → size < 25
    → ((terminal_init t y size input).window_position_y ≡ y)
      × ((terminal_init t y size input).window_size_y ≡ size)
      × ((terminal_init t y size input).is_input_enabled ≡ input)
unfolding terminal_init
init_window t y size input low h = (ground arith, ground arith, refl)

-- `kernel_stdio_init` comes to an end, and leaves the windows of the kernel, if no line of the two
-- terminals ends behind its 80 columns before it, as in memory that is zero.
pub kernel_stdio_init-IsReady :
    (c : Console)
    → c.shell_terminal.current_end_x ≤ 80
    → c.log_terminal.current_end_x ≤ 80
    → (c' : Console) × (kernel_stdio_init c ≡ some c') × IsReady c'
unfolding kernel_stdio_init terminal_init_draws
kernel_stdio_init-IsReady c x x' =
    let shell = terminal_init c.shell_terminal 0 17 true in
    let log = terminal_init c.log_terminal 20 5 false in
    let shell_valid = init-IsValid c.shell_terminal 0 17 true x (omega arith) in
    let log_valid = init-IsValid c.log_terminal 20 5 false x' (omega arith) in
    let (draws, run, first) = render-Drawn shell shell_valid in
    let (others, run', second) = render-Drawn log log_valid in
    let (top, size, input) = init_window c.shell_terminal 0 17 true (omega arith) (omega arith) in
    let (top', size', input') = init_window c.log_terminal 20 5 false (omega arith) (omega arith) in
    rw (run, run')
      (
        _,
        refl,
        record {
          shell = shell_valid;
          shell_top = top;
          shell_size = size;
          shell_input = input;
          log = log_valid;
          log_top = top';
          log_size = size';
          log_input = input';
        },
      )
