-- ===== src/Util/Strings/Trim.antt =====
-- utils/string.c, `trim_string`.
use almost_os.Prelude.{
  ℕ, zero, suc, ◌+◌, ◌-◌, ◌<◌, ◌≤◌, ◌≡◌, ◌≢◌, ◌⊎◌, refl, ap, ◌∙◌, fun_ext, some, Bytes, store,
  store-ne, arith, ltb, leb, ◌==◌, ◌&&◌, if◌then◌else◌, ℕ_discrete, inl, inr, true, false,
}
use almost_os.Prelude.Maybe.{option_map}
use almost_os.Util.Strings.{trim_end, skip_spaces, trim_string, strlen_unsafe, strlen_unsafe_lem}

-- The memory with zeros from offset `a` up to `b`.
abbrev pub cut : Bytes → ℕ → ℕ → Bytes
cut s a b j = if leb a j && ltb j b then 0 else s j

-- `k` of the `n` characters from `p` on are left after trailing spaces are cut.
abbrev pub Trimmed : Bytes → ℕ → ℕ → ℕ → Type 0
Trimmed s p n k =
    (k ≤ n) × ((k ≡ 0) ⊎ (s (p + (k - 1)) ≢ 32)) × ((j : ℕ) → p + k ≤ j → j < p + n → s j ≡ 32)

last_kept :
    (p n k : ℕ) (s : Bytes)
    → k ≤ n
    → (k ≡ 0) ⊎ (store s (p + n) 0 (p + (k - 1)) ≢ 32)
    → (k ≡ 0) ⊎ (s (p + (k - 1)) ≢ 32)
last_kept p n k s bound (inl z) = inl z
last_kept p n k s bound (inr ne) = elim (ℕ_discrete k 0) [
  | yes z ↦ inl z
  | no pos ↦ inr (λ e. ne (store-ne s (p + n) 0 (p + (k - 1)) (λ q. omega arith) ∙ e))
]

trim_end_lem :
    (p n : ℕ) (s : Bytes) → (k : ℕ) × Trimmed s p n k × (trim_end p n s ≡ cut s (p + k) (p + n))
unfolding trim_end
trim_end_lem p zero s =
    (0, (omega arith, inl refl, λ j a b. absurd (omega arith)), fun_ext (λ j. ground arith))
trim_end_lem p (suc n) s = elim (ℕ_discrete (s (p + n)) 32) [
  | yes e ↦
      let test : (s (p + n) == 32) ≡ true = ground arith in
      let (k, trimmed, same) = trim_end_lem p n (store s (p + n) 0) in
      (
        k,
        (
          omega (arith, trimmed.0),
          last_kept p n k s trimmed.0 trimmed.1,
          λ j a b. elim (ℕ_discrete j (p + n)) [
            | yes here ↦ rw here e
            | no other ↦ ground (arith, trimmed.2 j a (omega arith))
          ],
        ),
        rw test (same ∙ fun_ext (λ j. ground arith)),
      )
  | no ne ↦
      let test : (s (p + n) == 32) ≡ false = ground arith in
      let place : p + (suc n - 1) ≡ p + n = omega arith in
      (
        suc n,
        (omega arith, inr (rw place ne), λ j a b. absurd (omega arith)),
        rw test (fun_ext (λ j. ground arith)),
      )
]

-- The first character that is no space.
pub skip_spaces_lem :
    (fuel i p : ℕ) (s : Bytes)
    → i ≤ p
    → p < i + fuel
    → s p ≢ 32
    → ((j : ℕ) → i ≤ j → j < p → s j ≡ 32)
    → skip_spaces fuel i s ≡ some p
unfolding skip_spaces
skip_spaces_lem zero i p s low high stop spaces = absurd (omega arith)
skip_spaces_lem (suc fuel) i p s low high stop spaces = elim (ℕ_discrete i p) [
  | yes e ↦ let test : (s i == 32) ≡ false = ground (arith, ap s e) in rw test (ap some e)
  | no ne ↦
      let test : (s i == 32) ≡ true = ground (arith, spaces i (omega arith) (omega arith)) in
      rw test (
        skip_spaces_lem fuel (i + 1) p s (omega arith) (omega arith) stop
          (λ j a b. spaces j (omega arith) b))
]

-- `trim_string` of a string whose first `p` characters are spaces and whose next one is not, and
-- that has `n` characters from there on, at most 100. It gives the string at `p`, and cuts it to
-- `k` characters: after these there are only spaces, which become zeros, and the last of them is
-- no space. No other byte changes.
pub trim_string_lem :
    (s : Bytes) (p n fuel : ℕ)
    → p < fuel
    → ((j : ℕ) → j < p → s j ≡ 32)
    → s p ≢ 32
    → n ≤ 100
    → ((j : ℕ) → j < n → s (p + j) ≢ 0)
    → s (p + n) ≡ 0
    → (k : ℕ) × Trimmed s p n k × (trim_string fuel s ≡ some (p, cut s (p + k) (p + n)))
unfolding trim_string
trim_string_lem s p n fuel enough spaces stop short inner end =
    let (k, trimmed, same) = trim_end_lem p n s in
    (
      k,
      trimmed,
      ap (option_map (λ q. (q, trim_end q (strlen_unsafe (some (λ i. s (q + i)))) s)))
            (skip_spaces_lem fuel 0 p s (omega arith) (omega arith) stop (λ j a b. spaces j b))
          ∙ ap (λ l. some (p, trim_end p l s))
              ((strlen_unsafe_lem (λ i. s (p + i)) n inner).0 short end)
          ∙ ap (λ m. some (p, m)) same,
    )
