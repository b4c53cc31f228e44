-- ===== src/Shell/Output/Shown.antt =====
-- shell/cmd_ls.c over kernel_stdio.c: what the list of names leaves alone, and what it sends.
use mathlib.Core.List.{append_assoc, append-nil}
use almost_os.Prelude.{
  ℕ, zero, suc, ◌+◌, ◌*◌, ◌≤◌, ◌≡◌, ◌∙◌, sym, refl, ap, Option, some, List, [], ◌∷◌, ◌++◌, Bytes,
  bytes_of, map, ◌==◌, ◌||◌, if◌then◌else◌,
}
use almost_os.Terminal.{Terminal, Draw, terminal_putchar}
use almost_os.Terminal.Print.{Drawn-trans, putchar-Drawn, render-Drawn}
use almost_os.Drivers.Ports.{PortWrite}
use almost_os.Stdio.Console.{Console, kernel_putchar, putchar_bytes}
use almost_os.Stdio.Console.Windows.{sent_one, tty_write_lem, IsReady, shell-IsReady, shell-below}
use almost_os.Shell.Output.{show_names}

-- What goes to the serial port for a character on the terminal: a backspace or a delete moves left,
-- overwrites with a space and moves left again.
abbrev pub shown_bytes : ℕ → List PortWrite
shown_bytes x = if x == 8 || x == 127 then (1016, 8) ∷ (1016, 32) ∷ (1016, 8) ∷ [] else sent_one x

-- The bytes that go to the serial port for a series of characters.
abbrev pub all_bytes : List ℕ → List PortWrite
all_bytes [] = []
all_bytes (x ∷ xs) = shown_bytes x ++ all_bytes xs

-- The characters that the list prints for bytes of its buffer.
abbrev pub line_end : ℕ → ℕ
line_end byte = if byte == 0 then 10 else byte

pub record Shown (c : Console) (bytes : List PortWrite) (c' : Console) : Type 0 where
  pub ready : IsReady c'
  pub same_log : c'.log_terminal ≡ c.log_terminal
  pub below : (k : ℕ) → 160 * 18 ≤ k → c'.vga_ram k ≡ c.vga_ram k
  pub serial : c'.serial ≡ c.serial ++ bytes

pub data Shows (c : Console) (bytes : List PortWrite) : Option Console → Type 0 where
  shown : (c' : Console) → Shown c bytes c' → Shows c bytes (some c')

putchar_bytes_lem : (x : ℕ) → putchar_bytes x ≡ shown_bytes x
putchar_bytes_lem x = rw (tty_write_lem x, tty_write_lem 8, tty_write_lem 32) refl

-- One character.
kernel_putchar-Shown :
    (c : Console) (new_char : ℕ)
    → IsReady c
    → (c' : Console) × (kernel_putchar c new_char ≡ some c') × Shown c (shown_bytes new_char) c'
unfolding kernel_putchar
kernel_putchar-Shown c new_char ready =
    let t = terminal_putchar c.shell_terminal new_char in
    let (draws, run, first) = putchar-Drawn c.shell_terminal new_char ready.shell in
    let (others, run', second) = render-Drawn t first.valid in
    let d = Drawn-trans c.shell_terminal t t draws others first second in
    let r : Terminal × List Draw = (t, draws ++ others) in
    rw (run, run')
      (
        _,
        refl,
        record {
          ready = shell-IsReady c r (c.serial ++ putchar_bytes new_char) ready d;
          same_log = refl;
          below = λ k h. shell-below c r k ready d h;
          serial = ap (λ sent. c.serial ++ sent) (putchar_bytes_lem new_char);
        },
      )

Shown-trans :
    (c c' c'' : Console) (x xs : List PortWrite)
    → Shown c x c'
    → Shown c' xs c''
    → Shown c (x ++ xs) c''
Shown-trans c c' c'' x xs first second = record {
  ready = second.ready;
  same_log = second.same_log ∙ first.same_log;
  below = λ k h. second.below k h ∙ first.below k h;
  serial = second.serial ∙ ap (λ b. b ++ xs) first.serial ∙ append_assoc c.serial x xs;
}

Shows-step :
    (c c' : Console) (x xs : List PortWrite) (o : Option Console)
    → Shown c x c'
    → Shows c' xs o
    → Shows c (x ++ xs) o
Shows-step c c' x xs o first (shown c'' second) = shown c'' (Shown-trans c c' c'' x xs first second)

-- With the windows of the kernel, the loop of `ls` over `n` bytes comes to an end. The windows and
-- bounds of both terminals hold after it, the log's terminal and the screen from line 18 on are as
-- they were, and the bytes have gone to the serial port in order, with a line feed for each
-- terminator, and the move to the left, a space and again the move for a backspace.
pub show_names-Shows :
    (n i : ℕ) (c : Console) (buffer : Bytes)
    → IsReady c
    → Shows c (all_bytes (map line_end (bytes_of buffer i n))) (show_names n i c buffer)
unfolding show_names
show_names-Shows zero i c buffer ready = shown c (record {
  ready = ready;
  same_log = refl;
  below = λ k h. refl;
  serial = sym (append-nil c.serial);
})
show_names-Shows (suc n) i c buffer ready =
    let (c', run, first) = kernel_putchar-Shown c (line_end (buffer i)) ready in
    rw run (
      Shows-step c c' (shown_bytes (line_end (buffer i)))
        (all_bytes (map line_end (bytes_of buffer (i + 1) n))) (show_names n (i + 1) c' buffer)
        first (show_names-Shows n (i + 1) c' buffer first.ready))
