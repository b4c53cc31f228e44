-- ===== src/Shell/Arguments/Words.antt =====
-- shell/shell.c, parse_arguments: the words of a line.
pub mod Parse
use almost_os.Prelude.{
  ℕ, zero, suc, ◌+◌, ◌-◌, ◌<◌, ◌≤◌, ◌≡◌, ◌≢◌, ◌⊎◌, inl, inr, refl, sym, ap, ◌∙◌, Bool, true, false,
  ◌||◌, Option, none, some, List, [], ◌∷◌, Bytes, advance, store, arith, ltb, ◌==◌, if◌then◌else◌,
  length, Bool-cases, dec_lt,
}
use almost_os.Util.Strings.{skip_spaces}
use almost_os.Util.Strings.Trim.{skip_spaces_lem}
use almost_os.Shell.Arguments.{count_from, word_end}

-- A word of `n` characters at offset `i`: no spaces and no terminators.
abbrev pub Word : Bytes → ℕ → ℕ → Type 0
Word s i n = (0 < n) × ((x : ℕ) → i ≤ x → x < i + n → (s x ≢ 0) × (s x ≢ 32))

pub Word-same :
    (s s' : Bytes) (i n : ℕ) → ((x : ℕ) → i ≤ x → x < i + n → s' x ≡ s x) → Word s i n → Word s' i n
Word-same s s' i n same (pos, chars) = (
  pos,
  λ x low high. (
    λ e. (chars x low high).0 (sym (same x low high) ∙ e),
    λ e. (chars x low high).1 (sym (same x low high) ∙ e),
  ),
)

-- The further words from offset `i` on, each by the number of spaces before it and its length.
abbrev pub Rest : Bytes → ℕ → List (ℕ × ℕ) → Type 0
Rest s i [] = Unit {0}
Rest s i ((g, n) ∷ words) =
    (0 < g) × ((x : ℕ) → i ≤ x → x < i + g → s x ≡ 32) × Word s (i + g) n × Rest s (i + g + n) words

-- Where they end.
abbrev pub stop : ℕ → List (ℕ × ℕ) → ℕ
stop i [] = i
stop i ((g, n) ∷ words) = stop (i + g + n) words

-- Where they begin.
abbrev pub starts : ℕ → List (ℕ × ℕ) → List ℕ
starts i [] = []
starts i ((g, n) ∷ words) = (i + g) ∷ starts (i + g + n) words

pub stop-le : (i : ℕ) (words : List (ℕ × ℕ)) → i ≤ stop i words
stop-le i [] = omega arith
stop-le i ((g, n) ∷ words) = omega (arith, stop-le (i + g + n) words)

-- Words are the same in memory that agrees up to their end.
pub Rest-same :
    (s s' : Bytes) (i : ℕ) (words : List (ℕ × ℕ))
    → ((x : ℕ) → i ≤ x → x < stop i words → s' x ≡ s x)
    → Rest s i words
    → Rest s' i words
Rest-same s s' i [] same r = tt
Rest-same s s' i ((g, n) ∷ words) same (pos, spaces, word, r) =
    let far = stop-le (i + g + n) words in
    (
      pos,
      λ x low high. same x low (omega arith) ∙ spaces x low high,
      Word-same s s' (i + g) n (λ x low high. same x (omega arith) (omega arith)) word,
      Rest-same s s' (i + g + n) words (λ x low high. same x (omega arith) high) r,
    )

-- No terminator stands before the end.
pub Rest-inner :
    (s : Bytes) (i : ℕ) (words : List (ℕ × ℕ))
    → Rest s i words
    → (x : ℕ) → i ≤ x
    → x < stop i words
    → s x ≢ 0
Rest-inner s i [] r x low high = absurd (omega arith)
Rest-inner s i ((g, n) ∷ words) (_, spaces, word, r) x low high = elim (dec_lt x (i + g)) [
  | yes gap ↦ λ e. ground (arith, spaces x low gap)
  | no past ↦ elim (dec_lt x (i + g + n)) [
    | yes inside ↦ (word.1 x (omega arith) inside).0
    | no behind ↦ Rest-inner s (i + g + n) words r x (omega arith) high
  ]
]

-- The same words seen from a pointer to offset `p`.
pub Rest-advance :
    (s : Bytes) (p i i' : ℕ) (words : List (ℕ × ℕ))
    → i ≡ p + i'
    → Rest s i words
    → Rest (advance s p) i' words
Rest-advance s p i i' [] e r = tt
Rest-advance s p i i' ((g, n) ∷ words) e (pos, spaces, word, r) = (
  pos,
  λ x low high. spaces (p + x) (omega arith) (omega arith),
  (word.0, λ x low high. word.1 (p + x) (omega arith) (omega arith)),
  Rest-advance s p (i + g + n) (i' + g + n) words (omega arith) r,
)

pub stop_advance :
    (p i i' : ℕ) (words : List (ℕ × ℕ)) → i ≡ p + i' → stop i words ≡ p + stop i' words
stop_advance p i i' [] e = e
stop_advance p i i' ((g, n) ∷ words) e = stop_advance p (i + g + n) (i' + g + n) words (omega arith)

-- One round of the count, within a word or at a gap.
count_from_step :
    (fuel i k len num : ℕ) (t : Bytes)
    → i < len
    → skip_spaces fuel i t ≡ some k
    → count_from (suc fuel) i len t num
      ≡ count_from fuel (k + 1) len t (if t i == 32 then num + 1 else num)
unfolding count_from
count_from_step fuel i k len num t h skipped =
    let test : ltb i len ≡ true = ground arith in rw (test, skipped) refl

-- The count from a place `i` in a word that ends at `w`.
pub count_from_lem :
    (fuel i w : ℕ) (words : List (ℕ × ℕ)) (t : Bytes) (num : ℕ)
    → i ≤ w
    → ((x : ℕ) → i ≤ x → x < w → t x ≢ 32)
    → Rest t w words
    → stop w words + 1 < i + fuel
    → count_from fuel i (stop w words) t num ≡ some (num + length words)
count_from_lem zero i w words t num low inner r enough = absurd (omega (arith, stop-le w words))
count_from_lem (suc fuel) i w [] t num low inner r enough = elim (dec_lt i w) [
  | yes within ↦
      let e = inner i (omega arith) within in
      let test : (t i == 32) ≡ false = ground arith in
      count_from_step fuel i i w num t within
        (skip_spaces_lem fuel i i t (omega arith) (omega arith) e (λ j p q. absurd (omega arith)))
      ∙ rw test (
          count_from_lem fuel (i + 1) w [] t num (omega arith) (λ x p q. inner x (omega arith) q) r
            (omega arith))
  | no at_end ↦
      let test : ltb i w ≡ false = ground arith in
      unfold count_from in rw test (ap some (omega arith))
]
count_from_lem (suc fuel) i w ((g, n) ∷ words) t num low inner (pos, spaces, word, r) enough =
    let far = stop-le (w + g + n) words in
    elim (dec_lt i w) [
      | yes within ↦
          let e = inner i (omega arith) within in
          let test : (t i == 32) ≡ false = ground arith in
          count_from_step fuel i i (stop w ((g, n) ∷ words)) num t (omega (arith, word.0)) (
            skip_spaces_lem fuel i i t (omega arith) (omega (arith, word.0)) e
              (λ j p q. absurd (omega arith)))
          ∙ rw test (
              count_from_lem fuel (i + 1) w ((g, n) ∷ words) t num (omega arith)
                (λ x p q. inner x (omega arith) q) (pos, spaces, word, r) (omega arith))
      | no at_end ↦
          let here : i ≡ w = omega arith in
          let e = spaces i (omega arith) (omega arith) in
          let test : (t i == 32) ≡ true = ground arith in
          count_from_step fuel i (w + g) (stop w ((g, n) ∷ words)) num t (omega (arith, word.0)) (
            skip_spaces_lem fuel i (w + g) t (omega arith) (omega (arith, word.0))
              (word.1 (w + g) (omega arith) (omega (arith, word.0))).1
              (λ j p q. spaces j (omega arith) (omega arith)))
          ∙ rw test (
              count_from_lem fuel (w + g + 1) (w + g + n) words t (num + 1) (omega (arith, word.0))
                (λ x p q. (word.1 x (omega arith) q).1) r (omega arith)
              ∙ ap some (omega arith))
    ]

-- The end of a word is found.
pub word_end_lem :
    (fuel i w : ℕ) (s : Bytes)
    → i ≤ w
    → ((x : ℕ) → i ≤ x → x < w → (s x ≢ 0) × (s x ≢ 32))
    → (s w == 32 || s w == 0) ≡ true
    → w < i + fuel
    → word_end fuel i s ≡ some w
unfolding word_end
word_end_lem zero i w s low inner end enough = absurd (omega arith)
word_end_lem (suc fuel) i w s low inner end enough = elim (dec_lt i w) [
  | yes within ↦
      let (zero_ne, space_ne) = inner i (omega arith) within in
      let test : (s i == 32 || s i == 0) ≡ false = ground arith in
      rw test (
        word_end_lem fuel (i + 1) w s (omega arith) (λ x p q. inner x (omega arith) q) end
          (omega arith))
  | no at_end ↦
      let here : w ≡ i = omega arith in
      let test : (s i == 32 || s i == 0) ≡ true = rw here at end in rw test (ap some (sym here))
]
