-- ===== src/Shell/Arguments.antt =====
-- shell/shell.c, parse_arguments: an input line becomes a list of pointers into itself. A pointer is
-- its offset in the line; the array of them is a block of the heap.
pub mod Words
use almost_os.Prelude.{
  ℕ, zero, suc, ◌+◌, ◌*◌, ◌||◌, Option, none, some, List, [], ◌∷◌, Bytes, advance, store, ltb, ◌==◌,
  if◌then◌else◌,
}
use almost_os.Prelude.Maybe.{◌>>=◌, option_map}
use almost_os.Util.Strings.{strlen_unsafe, skip_spaces, trim_string}
use almost_os.Memory.Heap.{HeapBin, heap_malloc}

-- The loop that counts the arguments, from offset `i` of the string at `p`; `none` where the fuel
-- runs out.
unfoldable pub count_from : ℕ → ℕ → ℕ → Bytes → ℕ → Option ℕ
count_from zero i len trimmed_input num_of_args = none
count_from (suc fuel) i len trimmed_input num_of_args =
    let counted = if trimmed_input i == 32 then num_of_args + 1 else num_of_args in
    let rest : Option ℕ = elim (skip_spaces fuel i trimmed_input) [
      | none ↦ none
      | some k ↦ count_from fuel (k + 1) len trimmed_input counted
    ] in
    if ltb i len then rest else some num_of_args

-- The loop to the end of a word, from offset `i`.
unfoldable pub word_end : ℕ → ℕ → Bytes → Option ℕ
word_end zero i s = none
word_end (suc fuel) i s =
    let rest = word_end fuel (i + 1) s in if s i == 32 || s i == 0 then some i else rest

-- The loop that fills `argv`, with `n` pointers to go: the pointers, and the line with a terminator
-- behind each word.
unfoldable pub fill_from : ℕ → ℕ → ℕ → Bytes → Option (List ℕ × Bytes)
fill_from fuel zero string_start s = some ([], s)
fill_from fuel (suc n) string_start s = word_end fuel string_start s >>= (λ string_end.
    let ended = store s string_end 0 in
    skip_spaces fuel (string_end + 1) ended >>= (λ next.
      option_map (λ (argv, s'). (string_start ∷ argv, s')) (fill_from fuel n next ended)))

-- `argc`; `argv`, with its address and its pointers, or NULL; and the heap and the line behind it.
pub record Parsed : Type 0 where
  pub argc : ℕ
  pub argv : Option (ℕ × List ℕ)
  pub heap : HeapBin
  pub line : Bytes

-- What follows the allocation of `argv`: the loop that fills it, if it is there.
unfoldable pub fill_arguments : ℕ → ℕ → ℕ → Bytes → Option ℕ × HeapBin → Option Parsed
fill_arguments fuel argc p s (none, heap) =
    some (record { argc = argc; argv = none; heap = heap; line = s })
fill_arguments fuel argc p s (some block, heap) =
    option_map
      (λ (argv, s'). record { argc = argc; argv = some (block, argv); heap = heap; line = s' })
      (fill_from fuel argc p s)

-- `parse_arguments` of a line that is there: `argv` has 4 bytes for each pointer; `none` where a loop does not end within the fuel.
unfoldable pub parse_arguments : ℕ → HeapBin → Bytes → Option Parsed
unfolding fill_arguments
parse_arguments fuel heap input_string = trim_string fuel input_string >>= (λ (p, s).
    let trimmed_input = advance s p in
    count_from fuel 0 (strlen_unsafe (some trimmed_input)) trimmed_input 0 >>= (λ num_of_args.
      fill_arguments fuel (num_of_args + 1) p s (heap_malloc heap ((num_of_args + 1) * 4))))
