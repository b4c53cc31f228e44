-- ===== src/Tests/Printing.antt =====
-- kernel_stdio.c on the formats of the kernel.
use almost_os.Prelude.{ℕ, ◌≤◌, ◌<◌, ◌≡◌, refl, true, some, List, [], ◌∷◌, Bytes, of_list, arith}
use almost_os.Stdio.{kernel_printf, buffer_size}
use almost_os.Stdio.Format.{Piece, literal, directive, text}
use almost_os.Stdio.Bounds.{Printed, kernel_printf_lem, kernel_printf-past_end}
use almost_os.Stdio.Inside.{kernel_printf_bounds}
use almost_os.Stdio.RoundTrip.{atoi-kernel_printf}
use almost_os.Util.Numbers.{atoi}

-- `[%02d]`
abbrev bracketed : List Piece
bracketed = literal 91 ∷ directive true (50 ∷ []) 100 ∷ literal 93 ∷ []

abbrev bracketed_format : Bytes
bracketed_format = of_list (91 ∷ 37 ∷ 48 ∷ 50 ∷ 100 ∷ 93 ∷ [])

abbrev seven : ℕ → ℕ
seven i = 7

abbrev zeros : Bytes
zeros = of_list []

kernel_printf_lem_example :
    (out : Bytes) × (kernel_printf 10 bracketed_format zeros seven zeros zeros ≡ some out)
    × Printed zeros (text zeros seven 0 bracketed) out
kernel_printf_lem_example =
    kernel_printf_lem 10 bracketed bracketed_format zeros seven zeros zeros
      (
        (λ e. omega arith, λ e. omega arith),
        (
          (((omega arith, omega arith), tt), (λ e. absurd (cc e)), (λ e. omega arith), refl),
          ((λ e. omega arith, λ e. omega arith), tt),
        ),
      )
      (omega arith) (omega arith)

abbrev percent_d : Bytes
percent_d = of_list (37 ∷ 100 ∷ [])

atoi-kernel_printf_example :
    (out : Bytes) × (kernel_printf 3 percent_d zeros seven zeros zeros ≡ some out)
    × (atoi (some out) ≡ 7)
atoi-kernel_printf_example =
    atoi-kernel_printf 3 7 percent_d zeros seven zeros zeros (omega arith) (omega arith) refl refl
      refl refl

-- `%` and, behind the end of the string, `ok`
abbrev percent_ok : Bytes
percent_ok = of_list (37 ∷ 0 ∷ 111 ∷ 107 ∷ [])

kernel_printf-past_end_example :
    (out : Bytes) × (kernel_printf 4 percent_ok zeros seven zeros zeros ≡ some out)
    × Printed zeros (37 ∷ text zeros seven 0 (literal 111 ∷ literal 107 ∷ [])) out
kernel_printf-past_end_example =
    kernel_printf-past_end 3 (literal 111 ∷ literal 107 ∷ []) percent_ok zeros seven zeros zeros
      refl refl ((λ e. omega arith, λ e. omega arith), ((λ e. omega arith, λ e. omega arith), tt))
      (omega arith) (omega arith)

-- `%03` with nothing behind it, and two terminators
abbrev unfinished : Bytes
unfinished = of_list (37 ∷ 48 ∷ 51 ∷ [])

kernel_printf_bounds_example :
    (out : Bytes) × (kernel_printf 5 unfinished zeros seven zeros zeros ≡ some out)
    × ((j : ℕ) → buffer_size ≤ j → out j ≡ zeros j)
    × ((m : ℕ) × (m < buffer_size) × (out m ≡ 0))
kernel_printf_bounds_example =
    kernel_printf_bounds 5 3 unfinished zeros seven zeros zeros refl refl (omega arith)
