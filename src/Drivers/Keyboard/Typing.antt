-- ===== src/Drivers/Keyboard/Typing.antt =====
-- drivers/poors_man_keyboard_driver.c: what typing gives.
use almost_os.Prelude.{
  ℕ, zero, suc, ◌+◌, ◌<◌, ◌≤◌, Bool-cases, inl, inr, Option, ◌⊎◌, ◌≡◌, ◌≢◌, ◌∙◌, refl, ap, List, [],
  ◌∷◌, ◌++◌, map, All, arith, bit_and, ltb, ◌==◌, if◌then◌else◌, true, false, none, some,
}
use almost_os.Util.Bits.{same_values, same_values_lem}
use almost_os.Drivers.Keyboard.{emit, convert_scancode_to_ascii, keyboard_driver_poll, polls}

-- A key that is held for some polls, one at least, and then up for some: its scan code, how often
-- it is seen again while down, and how often while up.
pub record Stroke : Type 0 where
  pub key : ℕ
  pub again_down : ℕ
  pub again_up : ℕ

-- `code` seen `n` times
abbrev pub times : ℕ → ℕ → List ℕ
times zero code = []
times (suc n) code = code ∷ times n code

-- What the polls read: the scan code while the key is down, and that plus 128 while it is up.
abbrev pub scan_codes : List Stroke → List ℕ
scan_codes [] = []
scan_codes (s ∷ strokes) =
    times (suc s.again_down) s.key ++ (times (suc s.again_up) (s.key + 128) ++ scan_codes strokes)

-- A scan code below 128, and not 0, which no key has. The code of its release is not the controller's acknowledgement 250.
abbrev pub IsKey : Stroke → Type 0
IsKey s = (1 ≤ s.key) × (s.key < 128) × (s.key ≢ 122)

high_bit : (c : ℕ) → c < 256 → bit_and c 128 ≡ (if ltb c 128 then 0 else 128)
unfolding same_values
high_bit c = same_values_lem (λ c. bit_and c 128) (λ c. if ltb c 128 then 0 else 128) 256 c refl

-- One poll and the later ones.
polls-poll :
    (previous code kept : ℕ) (event : Option ℕ) (rest : List ℕ)
    → keyboard_driver_poll previous code ≡ (kept, event)
    → polls previous (code ∷ rest) ≡ ((polls kept rest).0, emit event (polls kept rest).1)
unfolding polls
polls-poll previous code kept event rest e =
    ap (λ (r : ℕ × Option ℕ). ((polls r.0 rest).0, emit r.1 (polls r.0 rest).1)) e

poll-again : (code : ℕ) → code ≢ 250 → keyboard_driver_poll code code ≡ (code, none)
unfolding keyboard_driver_poll
poll-again code h =
    let key : (code == 250) ≡ false = ground arith in
    let same : (code == code) ≡ true = ground arith in rw (key, same) refl

poll-down :
    (previous code : ℕ)
    → code < 128
    → previous ≢ code
    → keyboard_driver_poll previous code ≡ (code, some (convert_scancode_to_ascii code))
unfolding keyboard_driver_poll
poll-down previous code h ne =
    let key : (code == 250) ≡ false = ground arith in
    let other : (previous == code) ≡ false = ground arith in
    let down : (bit_and code 128 == 0) ≡ true = ground (arith, high_bit code (omega arith)) in
    rw (key, other, down) refl

poll-up :
    (previous key : ℕ)
    → key < 128
    → key ≢ 122
    → keyboard_driver_poll previous (key + 128) ≡ (key + 128, none)
unfolding keyboard_driver_poll
poll-up previous key h ne =
    let code : (key + 128 == 250) ≡ false = ground arith in
    let up : (bit_and (key + 128) 128 == 0) ≡ false =
      ground (arith, high_bit (key + 128) (omega arith)) in
    elim (Bool-cases (previous == key + 128)) [
      | inl same ↦ rw (code, same) refl
      | inr other ↦ rw (code, other, up) refl
    ]

polls-times :
    (n code : ℕ) (rest : List ℕ) → code ≢ 250 → polls code (times n code ++ rest) ≡ polls code rest
polls-times zero code rest h = refl
polls-times (suc n) code rest h =
    polls-poll code code code none (times n code ++ rest) (poll-again code h)
    ∙ polls-times n code rest h

not_key :
    (previous key : ℕ) → 1 ≤ key → key < 128 → (previous ≡ 0) ⊎ (128 ≤ previous) → previous ≢ key
not_key previous key low h (inl start) e = absurd (omega arith)
not_key previous key low h (inr released) e = absurd (omega arith)

-- From the start, or after a release, strokes give the characters of their keys in order, one for
-- each, however often a key is seen while it is down or up. The scan codes of the keys are from 1 to
-- 127, other than 122.
pub polls-scan_codes :
    (strokes : List Stroke) (previous : ℕ)
    → All IsKey strokes
    → (previous ≡ 0) ⊎ (128 ≤ previous)
    → (polls previous (scan_codes strokes)).1 ≡ map (λ s. convert_scancode_to_ascii s.key) strokes
unfolding polls
polls-scan_codes [] previous keys up = refl
polls-scan_codes (s ∷ strokes) previous keys up =
    let (some_key, h, ne) = keys.0 in
    let fresh : previous ≢ s.key = λ e. not_key previous s.key some_key h up e in
    let later = times (suc s.again_up) (s.key + 128) ++ scan_codes strokes in
    let down : polls previous (times (suc s.again_down) s.key ++ later)
        ≡ ((polls s.key later).0, convert_scancode_to_ascii s.key ∷ (polls s.key later).1) =
      polls-poll previous s.key s.key (some (convert_scancode_to_ascii s.key))
        (times s.again_down s.key ++ later) (poll-down previous s.key h fresh)
      ∙ ap (λ (r : ℕ × List ℕ). (r.0, convert_scancode_to_ascii s.key ∷ r.1))
          (polls-times s.again_down s.key later (λ e. omega (arith, e))) in
    let released : polls s.key later ≡ polls (s.key + 128) (scan_codes strokes) =
      polls-poll s.key (s.key + 128) (s.key + 128) none
        (times s.again_up (s.key + 128) ++ scan_codes strokes) (poll-up s.key s.key h ne)
      ∙ polls-times s.again_up (s.key + 128) (scan_codes strokes) (λ e. ne (omega (arith, e))) in
    ap (λ (r : ℕ × List ℕ). r.1) down
    ∙ ap (λ (r : ℕ × List ℕ). convert_scancode_to_ascii s.key ∷ r.1) released
    ∙ ap (◌∷◌ (convert_scancode_to_ascii s.key))
        (polls-scan_codes strokes (s.key + 128) keys.1 (inr (omega arith)))
