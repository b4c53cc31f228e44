-- ===== src/Drivers/Keyboard.antt =====
-- drivers/poors_man_keyboard_driver.c: scan codes to characters. `previous_scan_code` is the state;
-- the byte that port 0x60 answers is an argument.
pub mod Typing
use almost_os.Prelude.{
  ℕ, ◌&&◌, not, Option, none, some, List, [], ◌∷◌, bit_and, ◌==◌, if◌then◌else◌, get_or,
}

-- The entries 0 to 127 of `scancode_to_ASCII_table`; all others are 63, `?`.
abbrev pub scancode_to_ascii_table : List ℕ
scancode_to_ascii_table =
    63 ∷ 63 ∷ 49 ∷ 50 ∷ 51 ∷ 52 ∷ 53 ∷ 54 ∷ 55 ∷ 56 ∷ 57 ∷ 48 ∷ 45 ∷ 61 ∷ 8 ∷ 9 ∷ 113 ∷ 119 ∷ 101
    ∷ 114 ∷ 116 ∷ 121 ∷ 117 ∷ 105 ∷ 111 ∷ 112 ∷ 91 ∷ 93 ∷ 10 ∷ 63 ∷ 97 ∷ 115 ∷ 100 ∷ 102 ∷ 103 ∷ 104
    ∷ 106 ∷ 107 ∷ 108 ∷ 59 ∷ 39 ∷ 63 ∷ 63 ∷ 92 ∷ 122 ∷ 120 ∷ 99 ∷ 118 ∷ 98 ∷ 110 ∷ 109 ∷ 44 ∷ 46
    ∷ 47 ∷ 63 ∷ 63 ∷ 63 ∷ 32 ∷ 63 ∷ 63 ∷ 63 ∷ 63 ∷ 63 ∷ 63 ∷ 63 ∷ 63 ∷ 63 ∷ 63 ∷ 63 ∷ 63 ∷ 63 ∷ 55
    ∷ 56 ∷ 57 ∷ 45 ∷ 52 ∷ 53 ∷ 54 ∷ 43 ∷ 49 ∷ 50 ∷ 51 ∷ 48 ∷ 63 ∷ 63 ∷ 63 ∷ 63 ∷ 63 ∷ 63 ∷ 63 ∷ 63
    ∷ 63 ∷ 63 ∷ 63 ∷ 63 ∷ 63 ∷ 63 ∷ 63 ∷ 63 ∷ 63 ∷ 63 ∷ 63 ∷ 63 ∷ 63 ∷ 63 ∷ 63 ∷ 63 ∷ 63 ∷ 63 ∷ 63
    ∷ 63 ∷ 63 ∷ 63 ∷ 63 ∷ 63 ∷ 63 ∷ 63 ∷ 63 ∷ 63 ∷ 63 ∷ 63 ∷ 63 ∷ 63 ∷ 63 ∷ 63 ∷ 63 ∷ 63 ∷ 63 ∷ []

-- `convert_scancode_to_ASCII`; `~0x80` of a 32-bit `int`.
unfoldable pub convert_scancode_to_ascii : ℕ → ℕ
convert_scancode_to_ascii scan_code =
    get_or scancode_to_ascii_table (bit_and scan_code 4294967167) 63

-- `keyboard_driver_poll`: the scan code kept, and the character handed to `event_on_keypress`.
unfoldable pub keyboard_driver_poll : ℕ → ℕ → ℕ × Option ℕ
keyboard_driver_poll previous_scan_code scan_code =
    if scan_code == 250 then (previous_scan_code, none) else (
      scan_code,
      if not (previous_scan_code == scan_code) && bit_and scan_code 128 == 0
          then some (convert_scancode_to_ascii scan_code)
          else none,
    )

-- An event goes in front of the later ones.
abbrev pub emit : Option ℕ → List ℕ → List ℕ
emit none events = events
emit (some ascii_code) events = ascii_code ∷ events

-- The characters of a series of polls, with the scan code kept.
unfoldable pub polls : ℕ → List ℕ → ℕ × List ℕ
polls previous_scan_code [] = (previous_scan_code, [])
polls previous_scan_code (scan_code ∷ scan_codes) =
    let (kept, event) = keyboard_driver_poll previous_scan_code scan_code in
    let (last, events) = polls kept scan_codes in (last, emit event events)
