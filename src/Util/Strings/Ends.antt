-- ===== src/Util/Strings/Ends.antt =====
-- utils/string.c: `get_string_size` and `append_string` on a buffer with a terminator and without
-- one.
use almost_os.Prelude.{
  ℕ, zero, suc, ◌+◌, ◌-◌, ◌<◌, ◌≤◌, ◌≡◌, ◌≢◌, refl, ap, ◌∙◌, fun_ext, none, some, Bytes, arith, ltb,
  leb, ◌==◌, ◌||◌, ◌&&◌, not, if◌then◌else◌, ℕ_discrete, dec_lt, true, false,
}
use almost_os.Prelude.Int.{pos, rounds}
use almost_os.Prelude.Maybe.{option_map}
use almost_os.Util.Mem.{copy_size, mem_copy_lem}
use almost_os.Util.Strings.{find_end, get_string_size, append_string, append_at}

find_end-some :
    (fuel i k size : ℕ) (s : Bytes)
    → i ≤ k
    → k < i + fuel
    → k < size
    → s k ≡ 0
    → ((j : ℕ) → i ≤ j → j < k → s j ≢ 0)
    → find_end fuel i s size ≡ some k
unfolding find_end
find_end-some zero i k size s low high inside end inner = absurd (omega arith)
find_end-some (suc fuel) i k size s low high inside end inner = elim (ℕ_discrete i k) [
  | yes e ↦
      let stop : (not (s i == 0) || leb size i) ≡ false = ground (arith, ap s e) in
      rw stop (ap some e)
  | no ne ↦
      let on : (not (s i == 0) || leb size i) ≡ true =
        ground (arith, inner i (omega arith) (omega arith)) in
      rw on (
        find_end-some fuel (i + 1) k size s (omega arith) (omega arith) inside end
          (λ j p q. inner j (omega arith) q))
]

find_end-none :
    (fuel i size : ℕ) (s : Bytes) → ((j : ℕ) → j < size → s j ≢ 0) → find_end fuel i s size ≡ none
unfolding find_end
find_end-none zero i size s inner = refl
find_end-none (suc fuel) i size s inner =
    let on : (not (s i == 0) || leb size i) ≡ true = ground (arith, inner i) in
    rw on (find_end-none fuel (i + 1) size s inner)

-- `get_string_size` gives the length of a string whose terminator lies in the buffer, after one
-- round more than that.
pub get_string_size_lem :
    (buffer : Bytes) (buffer_size k fuel : ℕ)
    → k < buffer_size
    → buffer k ≡ 0
    → ((j : ℕ) → j < k → buffer j ≢ 0)
    → k < fuel
    → get_string_size fuel (some buffer) buffer_size ≡ some k
unfolding get_string_size
get_string_size_lem buffer buffer_size k fuel inside end inner enough =
    find_end-some fuel 0 k buffer_size buffer (omega arith) (omega arith) inside end
      (λ j p q. inner j q)

-- A fault: on a buffer without a terminator neither `get_string_size` nor `append_string` returns,
-- whatever lies behind the buffer.
pub get_string_size-endless :
    (buffer : Bytes) (buffer_size : ℕ)
    → ((j : ℕ) → j < buffer_size → buffer j ≢ 0)
    → (fuel : ℕ)
    → (get_string_size fuel (some buffer) buffer_size ≡ none)
      × ((source : Bytes) (source_size : ℕ)
          → append_string fuel buffer buffer_size source source_size ≡ none)
unfolding get_string_size append_string
get_string_size-endless buffer buffer_size inner fuel =
    let never = find_end-none fuel 0 buffer_size buffer inner in
    (
      never,
      λ source source_size. ap (option_map (append_at buffer buffer_size source source_size)) never,
    )

-- The bytes of an append.
abbrev pub appended : Bytes → ℕ → ℕ → Bytes → ℕ → Bytes
appended destination k destination_size source source_size i =
    if i == destination_size - 1
    then 0
    else if ltb i k
    then destination i
    else if ltb (i - k) source_size && ltb i (destination_size - 1)
    then source (i - k)
    else destination i

append_byte :
    (destination source : Bytes) (destination_size source_size k i : ℕ)
    → k < destination_size
    → (if i == destination_size - 1
        then 0
        else if ltb i k
        then destination i
        else if ltb (i - k) (rounds (copy_size (pos (destination_size - k - 1)) (pos source_size)))
        then source (i - k)
        else destination (k + (i - k)))
      ≡ appended destination k destination_size source source_size i
append_byte destination source destination_size source_size k i inside = elim (dec_lt i k) [
  | yes below ↦ ground arith
  | no from ↦ let place : k + (i - k) ≡ i = omega arith in rw place (ground arith)
]

append_at_lem :
    (destination source : Bytes) (destination_size source_size k : ℕ)
    → k < destination_size
    → append_at destination destination_size source source_size k
      ≡ appended destination k destination_size source source_size
unfolding append_at
append_at_lem destination source destination_size source_size k inside =
    rw
      (mem_copy_lem (λ i. destination (k + i)) source (pos (destination_size - k - 1))
        (pos source_size))
      (fun_ext (λ i. append_byte destination source destination_size source_size k i inside))

-- `append_string` to a string of length `k` whose terminator lies in the buffer: the string stays,
-- the source follows it as far as the buffer goes, the last byte of the buffer is 0, and nothing
-- behind the buffer is written.
pub append_string_lem :
    (destination source : Bytes) (destination_size source_size k fuel : ℕ)
    → k < destination_size
    → destination k ≡ 0
    → ((j : ℕ) → j < k → destination j ≢ 0)
    → k < fuel
    → append_string fuel destination destination_size source source_size
      ≡ some (appended destination k destination_size source source_size)
unfolding append_string
append_string_lem destination source destination_size source_size k fuel inside end inner enough =
    ap (option_map (append_at destination destination_size source source_size)) (
      find_end-some fuel 0 k destination_size destination (omega arith) (omega arith) inside end
        (λ j p q. inner j q))
    ∙ ap some (append_at_lem destination source destination_size source_size k inside)
