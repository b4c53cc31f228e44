-- ===== src/Tests/Text.antt =====
-- utils/ on concrete buffers.
use almost_os.Prelude.{
  ℕ, zero, suc, ◌+◌, ◌<◌, ◌≡◌, ◌≢◌, refl, none, some, [], ◌∷◌, Bytes, of_list, arith,
}
use almost_os.Util.Strings.{get_string_size, append_string}
use almost_os.Util.Strings.Ends.{get_string_size-endless}
use almost_os.Util.Numbers.{hex_to_long, long_to_hex}
use almost_os.Util.Numbers.RoundTrip.{hex_to_long-long_to_hex}

-- `hi` and its terminator.
abbrev hi : Bytes
hi = of_list (104 ∷ 105 ∷ [])

-- ` hi  ` and its terminator.
abbrev padded : Bytes
padded = of_list (32 ∷ 104 ∷ 105 ∷ 32 ∷ 32 ∷ [])

inner_hi : (j : ℕ) → j < 2 → hi j ≢ 0
inner_hi zero h = λ e. omega arith
inner_hi (suc zero) h = λ e. omega arith
inner_hi (suc (suc j)) h = absurd (omega arith)

inner_padded : (j : ℕ) → j < 4 → padded (1 + j) ≢ 0
inner_padded zero h = λ e. omega arith
inner_padded (suc zero) h = λ e. omega arith
inner_padded (suc (suc zero)) h = λ e. omega arith
inner_padded (suc (suc (suc zero))) h = λ e. omega arith
inner_padded (suc (suc (suc (suc j)))) h = absurd (omega arith)

leading : (j : ℕ) → j < 1 → padded j ≡ 32
leading zero h = refl
leading (suc j) h = absurd (omega arith)

hex_to_long-long_to_hex_example : hex_to_long (some (long_to_hex 2748 (of_list []) 4 16).0) ≡ 2748
hex_to_long-long_to_hex_example =
    hex_to_long-long_to_hex 2748 4 (of_list []) (omega arith) (omega arith) (omega arith) refl

get_string_size-endless_example :
    (get_string_size 1000 (some hi) 2 ≡ none)
    × ((source : Bytes) (source_size : ℕ) → append_string 1000 hi 2 source source_size ≡ none)
get_string_size-endless_example = get_string_size-endless hi 2 inner_hi 1000
