-- ===== src/Stdio/Console/Logging.antt =====
-- kernel_stdio.c, LOG: a line with a timestamp, in the log's window.
use almost_os.Prelude.{
  ℕ, ◌+◌, ◌-◌, ◌*◌, ◌≤◌, ◌<◌, ◌≡◌, ◌≢◌, ◌∙◌, refl, ap, inl, inr, zero, suc, true, false, Bool-cases,
  Option, some, List, Bytes, arith, ltb, if◌then◌else◌, dec_lt, ℕ_discrete,
}
use almost_os.Prelude.Maybe.{option_map}
use almost_os.Util.Strings.{strlen_unsafe, strlen_unsafe_logless, strlen_unsafe_lem}
use almost_os.Util.Strings.Ends.{appended, append_string_lem}
use almost_os.Util.Numbers.{long_to_hex}
use almost_os.Util.Numbers.RoundTrip.{digits_from-keep}
use almost_os.Terminal.{Terminal, Draw, terminal_printline}
use almost_os.Terminal.Ring.{IsValid}
use almost_os.Terminal.Print.{bottom, Draws, drawn, terminal_printline-Draws}
use almost_os.Drivers.Vga.Screen.{draw_all-Outside}
use almost_os.Stdio.Console.{Console, drawn_log, log, log_line, log_template}
use almost_os.Stdio.Console.Windows.{IsReady}

-- The timestamp and its separator. Digits of a negative timestamp may be 0.
abbrev pub stamp : ℕ → Bytes
stamp timestamp = (long_to_hex timestamp log_template 8 16).0

stamp-end : (timestamp : ℕ) → stamp timestamp 10 ≡ 0
stamp-end timestamp = elim (Bool-cases (ltb timestamp 2147483648)) [
  | inl positive ↦
      rw (stamp, long_to_hex, positive)
        (digits_from-keep 8 false timestamp 16 log_template 10 (omega arith))
  | inr negative ↦
      rw (stamp, long_to_hex, negative)
        (digits_from-keep 8 true (4294967296 - timestamp) 16 log_template 10 (omega arith))
]

-- Where the string in `s` ends, and it has less than 80 characters.
record EndsAt (s : Bytes) (k : ℕ) : Type 0 where
  short : k < 80
  end : s k ≡ 0
  inner : (j : ℕ) → j < k → s j ≢ 0

after_first :
    (s : Bytes) (k : ℕ)
    → s 0 ≢ 0
    → ((j : ℕ) → j < k → s (suc j) ≢ 0)
    → (j : ℕ) → j < suc k
    → s j ≢ 0
after_first s k first inner zero h = first
after_first s k first inner (suc j) h = inner j (omega arith)

-- A string ends at its first 0.
first_end :
    (n : ℕ) (s : Bytes) → s n ≡ 0 → (k : ℕ) × (k ≤ n) × (s k ≡ 0) × ((j : ℕ) → j < k → s j ≢ 0)
first_end zero s e = (0, omega arith, e, λ j h. absurd (omega arith))
first_end (suc n) s e = elim (ℕ_discrete (s 0) 0) [
  | yes stop ↦ (0, omega arith, stop, λ j h. absurd (omega arith))
  | no more ↦
      let (k, low, end, inner) = first_end n (λ i. s (suc i)) e in
      (suc k, omega arith, end, after_first s k more inner)
]

-- The place where the stamp ends, at 10 or before.
stamp-EndsAt : (timestamp : ℕ) → (k : ℕ) × EndsAt (stamp timestamp) k
stamp-EndsAt timestamp =
    let (k, low, end, inner) = first_end 10 (stamp timestamp) (stamp-end timestamp) in
    (k, record { short = omega arith; end = end; inner = inner })

module _ {s : Bytes} {k : ℕ} (ends : EndsAt s k) where
  -- The line: the stamp and the message, or as much of them as the 80 bytes hold.
  line_inner :
      (n j : ℕ) (message : Bytes)
      → ((i : ℕ) → i < n → message i ≢ 0)
      → j < k + n
      → j < 79
      → appended s k 80 message (n + 1) j ≢ 0
  line_inner n j message inner h room e = elim (dec_lt j k) [
    | yes low ↦ ends.inner j low (ground (arith, e))
    | no high ↦ inner (j - k) (omega arith) (ground (arith, e))
  ]

  line_end :
      (n : ℕ) (message : Bytes)
      → message n ≡ 0
      → appended s k 80 message (n + 1) (if ltb (k + n) 79 then k + n else 79) ≡ 0
  line_end n message end = elim (dec_lt (k + n) 79) [
    | yes whole ↦
        let place : k + n - k ≡ n = omega arith in
        let test : ltb (k + n) 79 ≡ true = ground arith in
        rw test (ground (arith, end, ap message place))
    | no cut ↦ ground arith
  ]

  -- The line ends within its buffer.
  line-Draws :
      (fuel n : ℕ) (t : Terminal) (message : Bytes)
      → IsValid t
      → ((i : ℕ) → i < n → message i ≢ 0)
      → message n ≡ 0
      → 80 ≤ fuel
      → Draws t (terminal_printline fuel t (appended s k 80 message (n + 1)))
  line-Draws fuel n t message v inner end enough =
      terminal_printline-Draws fuel (if ltb (k + n) 79 then k + n else 79) t
        (appended s k 80 message (n + 1)) v
        (λ j h. line_inner n j message inner (ground arith) (ground arith)) (line_end n message end)
        (ground arith)

logless_lem :
    (message : Bytes) (n : ℕ)
    → n ≤ 100
    → ((i : ℕ) → i < n → message i ≢ 0)
    → message n ≡ 0
    → strlen_unsafe_logless (some message) ≡ n
unfolding strlen_unsafe_logless strlen_unsafe
logless_lem message n h inner end = (strlen_unsafe_lem message n inner).0 h end

log_line_lem :
    (fuel timestamp n k : ℕ) (message : Bytes)
    → EndsAt (stamp timestamp) k
    → n ≤ 100
    → ((i : ℕ) → i < n → message i ≢ 0)
    → message n ≡ 0
    → 80 ≤ fuel
    → log_line fuel timestamp message ≡ some (appended (stamp timestamp) k 80 message (n + 1))
unfolding log_line
log_line_lem fuel timestamp n k message ends h inner end enough =
    rw (logless_lem message n h inner end) (
      append_string_lem (stamp timestamp) message 80 (n + 1) k fuel ends.short ends.end ends.inner
        (omega (arith, ends.short)))

-- What a message of the log leaves alone.
pub record Logged (c c' : Console) : Type 0 where
  pub ready : IsReady c'
  pub same_shell : c'.shell_terminal ≡ c.shell_terminal
  pub above : (k : ℕ) → k < 160 * 20 → c'.vga_ram k ≡ c.vga_ram k
  pub same_serial : c'.serial ≡ c.serial

-- The outcome of a message.
pub data Logs (c : Console) : Option Console → Type 0 where
  logged : (c' : Console) → Logged c c' → Logs c (some c')

Logs-of_Draws :
    (c : Console) (o : Option (Terminal × List Draw))
    → IsReady c
    → Draws c.log_terminal o
    → Logs c (option_map (drawn_log c) o)
Logs-of_Draws c o ready (drawn r d) =
    let lowest : bottom c.log_terminal ≡ 25 =
      rw (ready.log_top, ready.log_size, ready.log_input) refl in
    logged (drawn_log c r) (record {
      ready = record {
        shell = ready.shell;
        shell_top = ready.shell_top;
        shell_size = ready.shell_size;
        shell_input = ready.shell_input;
        log = d.valid;
        log_top = d.window.0 ∙ ready.log_top;
        log_size = d.window.1 ∙ ready.log_size;
        log_input = d.window.2 ∙ ready.log_input;
      };
      same_shell = refl;
      above = λ k h.
          draw_all-Outside r.1 c.vga_ram c.log_terminal.window_position_y (bottom c.log_terminal) k
            d.inside (omega (arith, lowest)) (inl (omega (arith, ready.log_top)));
      same_serial = refl;
    })

-- With the windows of the kernel, `LOG` of a message of at most 100 characters comes to an end with
-- a fuel of 80. The windows and bounds of both terminals hold after it; the shell's terminal, the
-- screen above line 20 and the serial port are as they were.
pub log-Logs :
    (fuel timestamp n : ℕ) (c : Console) (message : Bytes)
    → IsReady c
    → n ≤ 100
    → ((i : ℕ) → i < n → message i ≢ 0)
    → message n ≡ 0
    → 80 ≤ fuel
    → Logs c (log fuel c timestamp message)
unfolding log
log-Logs fuel timestamp n c message ready h inner end enough =
    let (k, ends) = stamp-EndsAt timestamp in
    rw (log_line_lem fuel timestamp n k message ends h inner end enough) (
      Logs-of_Draws c
        (terminal_printline fuel c.log_terminal (appended (stamp timestamp) k 80 message (n + 1)))
        ready (line-Draws ends fuel n c.log_terminal message ready.log inner end enough))
