-- ===== src/SystemCalls/Write.antt =====
-- system_calls.c, sys_write: what reaches the terminal.
use almost_os.Prelude.{
  ℕ, ◌<◌, ◌≡◌, Bool, not, ◌&&◌, true, false, List, [], ◌∷◌, Bytes, ltb, ◌==◌, if◌then◌else◌, length,
  get_or,
}
use almost_os.Stdio.Format.{Piece, literal, directive}

abbrev pub min : ℕ → ℕ → ℕ
min a b = if ltb a b then a else b

-- The first `n` characters of a text of length `len`.
abbrev IsText : ℕ → ℕ → Bytes → List ℕ → Type 0
IsText n len c t = (length t ≡ min n len) × ((j : ℕ) → j < min n len → get_or t j 0 ≡ c j)

-- Whether no character is a terminator or a `%`.
abbrev plain : List ℕ → Bool
plain [] = true
plain (c ∷ cs) = not (c == 0) && not (c == 37) && plain cs

abbrev literals : List ℕ → List Piece → List Piece
literals [] ps = ps
literals (c ∷ cs) ps = literal c ∷ literals cs ps

abbrev number_piece : Piece
number_piece = directive false [] 100

-- `[ERROR] sys_write(): Bad FD = `
abbrev pub bad_fd_message : List ℕ
bad_fd_message =
    91 ∷ 69 ∷ 82 ∷ 82 ∷ 79 ∷ 82 ∷ 93 ∷ 32 ∷ 115 ∷ 121 ∷ 115 ∷ 95 ∷ 119 ∷ 114 ∷ 105 ∷ 116 ∷ 101 ∷ 40
    ∷ 41 ∷ 58 ∷ 32 ∷ 66 ∷ 97 ∷ 100 ∷ 32 ∷ 70 ∷ 68 ∷ 32 ∷ 61 ∷ 32 ∷ []

-- `[ERROR] sys_write(): Mesage too big! count = `
abbrev pub too_big_message : List ℕ
too_big_message =
    91 ∷ 69 ∷ 82 ∷ 82 ∷ 79 ∷ 82 ∷ 93 ∷ 32 ∷ 115 ∷ 121 ∷ 115 ∷ 95 ∷ 119 ∷ 114 ∷ 105 ∷ 116 ∷ 101 ∷ 40
    ∷ 41 ∷ 58 ∷ 32 ∷ 77 ∷ 101 ∷ 115 ∷ 97 ∷ 103 ∷ 101 ∷ 32 ∷ 116 ∷ 111 ∷ 111 ∷ 32 ∷ 98 ∷ 105 ∷ 103
    ∷ 33 ∷ 32 ∷ 99 ∷ 111 ∷ 117 ∷ 110 ∷ 116 ∷ 32 ∷ 61 ∷ 32 ∷ []
