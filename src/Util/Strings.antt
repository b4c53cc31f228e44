-- ===== src/Util/Strings.antt =====
-- utils/string.c: C strings in memory. A NULL pointer is `none` where the code tests for it; a
-- function that never returns gives `none` at every fuel.
pub mod Ends
pub mod Trim
use almost_os.Prelude.{
  ℕ, zero, suc, ◌+◌, ◌-◌, ◌<◌, ◌≤◌, ◌≡◌, ◌≢◌, refl, ap, fun_ext, Option, none, some, Bytes, store,
  arith, ltb, leb, ◌==◌, ◌||◌, ◌&&◌, not, if◌then◌else◌, dec_lt, ℕ_discrete, Bool-cases, inl, inr,
  true, false, Bool,
}
use almost_os.Prelude.Int.{ℤ, pos, negsuc, rounds, int_lt}
use almost_os.Prelude.Maybe.{option_map, option_or}
use almost_os.Util.Mem.{mem_copy, copy_size}

-- The loop of `strlen_unsafe` from offset `i`, which gives up after 100 characters: `n` rounds.
unfoldable pub limited_from : ℕ → ℕ → Bytes → ℕ
limited_from zero i s = 0
limited_from (suc n) i s =
    let rest = limited_from n (i + 1) s in
    if s i == 0 then i else if ltb 100 (i + 1) then 0 else rest

-- `strlen_unsafe`. The loop goes round 101 times at most.
unfoldable pub strlen_unsafe : Option Bytes → ℕ
strlen_unsafe none = 0
strlen_unsafe (some input_string) = limited_from 101 0 input_string

-- `strlen_unsafe_logless` does the same without a log message.
unfoldable pub strlen_unsafe_logless : Option Bytes → ℕ
strlen_unsafe_logless none = 0
strlen_unsafe_logless (some input_string) = limited_from 101 0 input_string

-- The search for the end of a string in a buffer, in `append_string` and `get_string_size`, from
-- offset `i`: the loop goes on while the byte is not 0 or the offset is past the buffer.
unfoldable pub find_end : ℕ → ℕ → Bytes → ℕ → Option ℕ
find_end zero i buffer buffer_size = none
find_end (suc fuel) i buffer buffer_size =
    let rest = find_end fuel (i + 1) buffer buffer_size in
    if not (buffer i == 0) || leb buffer_size i then rest else some i

-- `get_string_size`, with the fuel of its loop.
unfoldable pub get_string_size : ℕ → Option Bytes → ℕ → Option ℕ
get_string_size fuel none buffer_size = some 0
get_string_size fuel (some buffer) buffer_size = find_end fuel 0 buffer buffer_size

-- What `append_string` does once it has the end of the first string.
unfoldable pub append_at : Bytes → ℕ → Bytes → ℕ → ℕ → Bytes
append_at destination destination_size source source_size end_of_first =
    let space_left = destination_size - end_of_first in
    let rest_of_buffer : Bytes = λ i. destination (end_of_first + i) in
    let copied =
      mem_copy (some rest_of_buffer) (pos (space_left - 1)) (some source) (pos source_size) in
    store
      (λ i.
        if ltb i end_of_first
        then destination i
        else option_or copied.1 rest_of_buffer (i - end_of_first))
      (destination_size - 1) 0

-- `append_string`, with the fuel of its loop; both pointers are there, and the sizes are positive
-- as `int`s.
unfoldable pub append_string : ℕ → Bytes → ℕ → Bytes → ℕ → Option Bytes
append_string fuel destination destination_size source source_size =
    option_map (append_at destination destination_size source source_size)
      (find_end fuel 0 destination destination_size)

-- The loop of `trim_string` over leading spaces, from offset `i`.
unfoldable pub skip_spaces : ℕ → ℕ → Bytes → Option ℕ
skip_spaces zero i s = none
skip_spaces (suc fuel) i s =
    let rest = skip_spaces fuel (i + 1) s in if s i == 32 then rest else some i

-- The loop of `trim_string` over trailing spaces: the string at offset `p` has length `len`.
unfoldable pub trim_end : ℕ → ℕ → Bytes → Bytes
trim_end p zero s = s
trim_end p (suc len) s =
    let rest = trim_end p len (store s (p + len) 0) in if s (p + len) == 32 then rest else s

-- `trim_string` of a string that is there: the offset of the trimmed string, and the memory.
unfoldable pub trim_string : ℕ → Bytes → Option (ℕ × Bytes)
trim_string fuel s =
    option_map (λ p. (p, trim_end p (strlen_unsafe (some (λ i. s (p + i)))) s))
      (skip_spaces fuel 0 s)

limited_from-some :
    (n i k : ℕ) (s : Bytes)
    → i ≤ k
    → k < i + n
    → i + n ≤ 101
    → s k ≡ 0
    → ((j : ℕ) → i ≤ j → j < k → s j ≢ 0)
    → limited_from n i s ≡ k
unfolding limited_from
limited_from-some zero i k s low high bound end inner = absurd (omega arith)
limited_from-some (suc n) i k s low high bound end inner = elim (ℕ_discrete i k) [
  | yes e ↦ let stop : (s i == 0) ≡ true = ground (arith, ap s e) in rw stop e
  | no ne ↦
      let go : (s i == 0) ≡ false = ground (arith, inner i (omega arith) (omega arith)) in
      let on : ltb 100 (i + 1) ≡ false = ground arith in
      rw (go, on)
        (limited_from-some n (i + 1) k s (omega arith) (omega arith) (omega arith) end
          (λ j p q. inner j (omega arith) q))
]

limited_from-none :
    (n i : ℕ) (s : Bytes) → ((j : ℕ) → i ≤ j → j < i + n → s j ≢ 0) → limited_from n i s ≡ 0
unfolding limited_from
limited_from-none zero i s inner = refl
limited_from-none (suc n) i s inner =
    let go : (s i == 0) ≡ false = ground (arith, inner i (omega arith) (omega arith)) in
    ground (arith, go, limited_from-none n (i + 1) s (λ j p q. inner j (omega arith) (omega arith)))

-- `strlen_unsafe` gives the length of a string of at most 100 characters, and 0 if none of the
-- first 101 bytes is 0.
pub strlen_unsafe_lem :
    (s : Bytes) (k : ℕ)
    → ((j : ℕ) → j < k → s j ≢ 0)
    → ((k ≤ 100 → s k ≡ 0 → strlen_unsafe (some s) ≡ k) × (101 ≤ k → strlen_unsafe (some s) ≡ 0))
unfolding strlen_unsafe
strlen_unsafe_lem s k inner = (
  λ bound end.
      limited_from-some 101 0 k s (omega arith) (omega arith) (omega arith) end
        (λ j p q. inner j q),
  λ long. limited_from-none 101 0 s (λ j p q. inner j (omega arith)),
)
