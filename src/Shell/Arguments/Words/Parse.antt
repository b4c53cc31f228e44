-- ===== src/Shell/Arguments/Words/Parse.antt =====
-- shell/shell.c, parse_arguments: what it makes of a line of words.
use almost_os.Prelude.{
  ℕ, zero, suc, ◌+◌, ◌-◌, ◌*◌, ◌<◌, ◌≤◌, ◌≡◌, ◌≢◌, inl, inr, refl, sym, ap, ap₂, ◌∙◌, some, List,
  [], ◌∷◌, Bytes, advance, store, store-ne, store_self, arith, length, dec_lt,
}
use native.Mathlib.Numerals.{add-one}
use almost_os.Util.Strings.{skip_spaces, strlen_unsafe, strlen_unsafe_lem, trim_string}
use almost_os.Util.Strings.Trim.{skip_spaces_lem, cut, Trimmed, trim_string_lem}
use almost_os.Memory.Heap.{HeapBin, heap_malloc}
use almost_os.Shell.Arguments.{word_end, fill_from, fill_arguments, parse_arguments, count_from}
use almost_os.Shell.Arguments.Words.{
  Word, Rest, stop, starts, stop-le, Word-same, Rest-same, Rest-inner, Rest-advance, stop_advance,
  count_from_lem, word_end_lem,
}

-- Each word of `s` stands in `s'`, and a terminator follows it.
abbrev pub Ended : Bytes → Bytes → ℕ → ℕ → List (ℕ × ℕ) → Type 0
Ended s s' i n [] = ((x : ℕ) → i ≤ x → x < i + n → s' x ≡ s x) × (s' (i + n) ≡ 0)
Ended s s' i n ((g, m) ∷ words) =
    ((x : ℕ) → i ≤ x → x < i + n → s' x ≡ s x) × (s' (i + n) ≡ 0) × Ended s s' (i + n + g) m words

Ended-same :
    (s t s' : Bytes) (i n : ℕ) (words : List (ℕ × ℕ))
    → ((x : ℕ) → i ≤ x → s x ≡ t x)
    → Ended s s' i n words
    → Ended t s' i n words
Ended-same s t s' i n [] same (kept, end) = (λ x low high. kept x low high ∙ same x low, end)
Ended-same s t s' i n ((g, m) ∷ words) same (kept, end, others) = (
  λ x low high. kept x low high ∙ same x low,
  end,
  Ended-same s t s' (i + n + g) m words (λ x low. same x (omega arith)) others,
)

fill_step :
    (fuel n i w k : ℕ) (s : Bytes) (argv : List ℕ) (s' : Bytes)
    → word_end fuel i s ≡ some w
    → skip_spaces fuel (w + 1) (store s w 0) ≡ some k
    → fill_from fuel n k (store s w 0) ≡ some (argv, s')
    → fill_from fuel (suc n) i s ≡ some (i ∷ argv, s')
unfolding fill_from
fill_step fuel n i w k s argv s' ended skipped filled = rw (ended, skipped, filled) refl

-- The array is filled with the places of the words.
fill_from_lem :
    (words : List (ℕ × ℕ)) (fuel i n : ℕ) (s : Bytes)
    → Word s i n
    → Rest s (i + n) words
    → s (stop (i + n) words) ≡ 0
    → s (stop (i + n) words + 1) ≢ 32
    → stop (i + n) words + 1 < fuel
    → (s' : Bytes) × (fill_from fuel (suc (length words)) i s ≡ some (i ∷ starts (i + n) words, s'))
      × Ended s s' i n words
      × ((x : ℕ) → x < i → s' x ≡ s x)
fill_from_lem [] fuel i n s word r end behind enough = (
  store s (i + n) 0,
  fill_step fuel 0 i (i + n) (i + n + 1) s [] (store s (i + n) 0)
      (word_end_lem fuel i (i + n) s (omega arith) word.1 (ground (arith, end)) (omega arith))
      (skip_spaces_lem fuel (i + n + 1) (i + n + 1) (store s (i + n) 0) (omega arith) (omega arith)
        (λ e. behind (ground (arith, e))) (λ j p q. absurd (omega arith)))
      (unfold fill_from in refl),
  (λ x low high. store-ne s (i + n) 0 x (λ e. omega arith), store_self s (i + n) 0),
  λ x low. store-ne s (i + n) 0 x (λ e. omega arith),
)
fill_from_lem ((g, m) ∷ words) fuel i n s word (pos, spaces, next, r) end behind enough =
    let w = i + n in
    let ended = store s w 0 in
    let far = stop-le (w + g + m) words in
    let same = λ (x : ℕ) (low : w + g ≤ x). store-ne s w 0 x (λ e. omega arith) in
    let gap : s w ≡ 32 = spaces w (omega arith) (omega arith) in
    let next' = Word-same s ended (w + g) m (λ x low high. same x low) next in
    let (s', filled, kept, before) =
      fill_from_lem words fuel (w + g) m ended next'
        (Rest-same s ended (w + g + m) words (λ x low high. same x (omega arith)) r)
        (same (stop (w + g + m) words) (omega arith) ∙ end)
        (λ e. behind (sym (same (stop (w + g + m) words + 1) (omega arith)) ∙ e)) enough in
    (
      s',
      fill_step fuel (suc (length words)) i w (w + g) s ((w + g) ∷ starts (w + g + m) words) s'
          (word_end_lem fuel i w s (omega arith) word.1 (ground (arith, gap)) (omega arith))
          (skip_spaces_lem fuel (w + 1) (w + g) ended (omega arith) (omega arith)
            (next'.1 (w + g) (omega arith) (omega (arith, next.0))).1
            (λ j p q. store-ne s w 0 j (λ e. omega arith) ∙ spaces j (omega arith) q))
          filled,
      (
        λ x low high. before x (omega arith) ∙ store-ne s w 0 x (λ e. omega arith),
        before w (omega arith) ∙ store_self s w 0,
        Ended-same ended s s' (w + g) m words same kept,
      ),
      λ x low. before x (omega arith) ∙ store-ne s w 0 x (λ e. omega arith),
    )

-- The trailing spaces are cut at the end of the last word.
Trimmed-end :
    (s : Bytes) (p e b k : ℕ)
    → p < e
    → s (e - 1) ≢ 32
    → ((x : ℕ) → e ≤ x → x < e + b → s x ≡ 32)
    → Trimmed s p (e + b - p) k
    → p + k ≡ e
Trimmed-end s p e b k h last spaces (bound, kept, cut_off) = elim (dec_lt (p + k) e) [
  | yes early ↦ absurd (last (cut_off (e - 1) (omega arith) (omega arith)))
  | no late ↦ elim (dec_lt e (p + k)) [
    | yes far ↦ elim kept [
      | inl z ↦ absurd (omega arith)
      | inr ne ↦ absurd (ne (spaces (p + (k - 1)) (omega arith) (omega arith)))
    ]
    | no near ↦ omega arith
  ]
]

last_character :
    (words : List (ℕ × ℕ)) (s : Bytes) (i n : ℕ)
    → Word s i n
    → Rest s (i + n) words
    → s (stop (i + n) words - 1) ≢ 32
last_character [] s i n word r =
    (word.1 (i + n - 1) (omega (arith, word.0)) (omega (arith, word.0))).1
last_character ((g, m) ∷ words) s i n word (pos, spaces, next, r) =
    last_character words s (i + n + g) m next r

-- No terminator stands in the line.
line_inner :
    (s : Bytes) (p n b : ℕ) (words : List (ℕ × ℕ))
    → Word s p n
    → Rest s (p + n) words
    → ((x : ℕ) → stop (p + n) words ≤ x → x < stop (p + n) words + b → s x ≡ 32)
    → (x : ℕ) → p ≤ x
    → x < stop (p + n) words + b
    → s x ≢ 0
line_inner s p n b words word r after x low high = elim (dec_lt x (p + n)) [
  | yes inside ↦ (word.1 x low inside).0
  | no behind ↦ elim (dec_lt x (stop (p + n) words)) [
    | yes inside ↦ Rest-inner s (p + n) words r x (omega arith) inside
    | no past ↦ λ e. ground (arith, after x (omega arith) high)
  ]
]

-- `trim_string` of a line of words between spaces.
trim_words :
    (s : Bytes) (p n b fuel : ℕ) (words : List (ℕ × ℕ))
    → ((x : ℕ) → x < p → s x ≡ 32)
    → Word s p n
    → Rest s (p + n) words
    → ((x : ℕ) → stop (p + n) words ≤ x → x < stop (p + n) words + b → s x ≡ 32)
    → s (stop (p + n) words + b) ≡ 0
    → stop (p + n) words + b ≤ p + 100
    → p < fuel
    → trim_string fuel s ≡ some (p, cut s (stop (p + n) words) (stop (p + n) words + b))
trim_words s p n b fuel words before word r after end short enough =
    let e = stop (p + n) words in
    let far = stop-le (p + n) words in
    let first = word.1 p (omega arith) (omega (arith, word.0)) in
    let total : p + (e + b - p) ≡ e + b = omega arith in
    let (k, trimmed, done) =
      trim_string_lem s p (e + b - p) fuel enough before first.1 (omega arith)
        (λ j h. line_inner s p n b words word r after (p + j) (omega arith) (omega arith))
        (rw total end) in
    let cut_at =
      Trimmed-end s p e b k (omega (arith, word.0)) (last_character words s p n word r) after
        trimmed in
    done ∙ ap (λ (m : Bytes). some (p, m)) (ap₂ (cut s) cut_at total)

Ended-trim :
    (s t s' : Bytes) (i n : ℕ) (words : List (ℕ × ℕ))
    → ((x : ℕ) → x < stop (i + n) words → t x ≡ s x)
    → Ended t s' i n words
    → Ended s s' i n words
Ended-trim s t s' i n [] same (kept, end) = (λ x low high. kept x low high ∙ same x high, end)
Ended-trim s t s' i n ((g, m) ∷ words) same (kept, end, others) =
    let far = stop-le (i + n + g + m) words in
    (
      λ x low high. kept x low high ∙ same x (omega arith),
      end,
      Ended-trim s t s' (i + n + g) m words same others,
    )

cut_end :
    (s : Bytes) (e b : ℕ)
    → s (e + b) ≡ 0
    → s (e + b + 1) ≢ 32
    → (cut s e (e + b) e ≡ 0) × (cut s e (e + b) (e + 1) ≢ 32)
cut_end s e zero end behind = (
  ground (arith, end, ap s (let h : e + 0 ≡ e = omega arith in h)),
  λ q. behind (ground (arith, q, ap s (let h : e + 0 + 1 ≡ e + 1 = omega arith in h))),
)
cut_end s e (suc zero) end behind = (ground arith, λ q. ground (arith, end, q))
cut_end s e (suc (suc b)) end behind = (ground arith, λ q. ground (arith, q))

-- Once the line is trimmed, the words are counted.
count_words :
    (t : Bytes) (p n fuel : ℕ) (words : List (ℕ × ℕ))
    → Word t p n
    → Rest t (p + n) words
    → t (stop (p + n) words) ≡ 0
    → stop (p + n) words ≤ p + 100
    → stop (p + n) words + 2 < fuel
    → count_from fuel 0 (strlen_unsafe (some (advance t p))) (advance t p) 0 ≡ some (length words)
count_words t p n fuel words word r end short enough =
    let shift = stop_advance p (p + n) n words refl in
    let far = stop-le (p + n) words in
    let len : strlen_unsafe (some (advance t p)) ≡ stop n words =
      (strlen_unsafe_lem (advance t p) (stop n words) (λ j h.
          line_inner t p n 0 words word r (λ x q z. absurd (omega arith)) (p + j) (omega arith)
            (omega arith))).0
        (omega arith) (rw (← shift) end) in
    rw len (
      count_from_lem fuel 0 n words (advance t p) 0 (omega arith)
        (λ x low high. (word.1 (p + x) (omega arith) (omega arith)).1)
        (Rest-advance t p (p + n) n words refl r) (omega arith)
      ∙ ap some (omega arith))

fill_arguments_lem :
    (fuel : ℕ) (heap heap' : HeapBin) (argc p block : ℕ) (s s' : Bytes) (argv : List ℕ)
    → heap_malloc heap (argc * 4) ≡ (some block, heap')
    → fill_from fuel argc p s ≡ some (argv, s')
    → fill_arguments fuel argc p s (heap_malloc heap (argc * 4))
      ≡ some (record { argc = argc; argv = some (block, argv); heap = heap'; line = s' })
fill_arguments_lem fuel heap heap' argc p block s s' argv granted filled =
    rw granted (unfold fill_arguments in rw filled refl)

parse_steps :
    (fuel : ℕ) (heap : HeapBin) (s t : Bytes) (p num : ℕ)
    → trim_string fuel s ≡ some (p, t)
    → count_from fuel 0 (strlen_unsafe (some (advance t p))) (advance t p) 0 ≡ some num
    → parse_arguments fuel heap s
      ≡ fill_arguments fuel (num + 1) p t (heap_malloc heap ((num + 1) * 4))
unfolding parse_arguments
parse_steps fuel heap s t p num trimmed counted = rw (trimmed, counted) refl

-- `parse_arguments` of a line of words that single or several spaces separate, with spaces before
-- and behind them, of at most 100 characters from the first word on, where the byte behind the line
-- is no space and the heap grants the array. It comes to an end and gives as many arguments as there
-- are words. The pointers lead to the words, one after the other, and each word stands there
-- unchanged and ended by a 0. Fuel above the end of the line by 3 is enough.
pub parse_arguments-words :
    (s : Bytes) (p n b fuel : ℕ) (words : List (ℕ × ℕ)) (heap heap' : HeapBin) (block : ℕ)
    → ((x : ℕ) → x < p → s x ≡ 32)
    → Word s p n
    → Rest s (p + n) words
    → ((x : ℕ) → stop (p + n) words ≤ x → x < stop (p + n) words + b → s x ≡ 32)
    → s (stop (p + n) words + b) ≡ 0
    → s (stop (p + n) words + b + 1) ≢ 32
    → stop (p + n) words + b ≤ p + 100
    → stop (p + n) words + b + 2 < fuel
    → heap_malloc heap ((length words + 1) * 4) ≡ (some block, heap')
    → (s' : Bytes) × (parse_arguments fuel heap s
        ≡ some (record {
          argc = length words + 1;
          argv = some (block, p ∷ starts (p + n) words);
          heap = heap';
          line = s';
        }))
      × Ended s s' p n words
parse_arguments-words s p n b fuel words heap heap' block before word r after end behind short
      enough granted =
    let e = stop (p + n) words in
    let far = stop-le (p + n) words in
    let t = cut s e (e + b) in
    let same = λ (x : ℕ) (high : x < e). let h : t x ≡ s x = ground arith in h in
    let (end', behind') = cut_end s e b end behind in
    let word' = Word-same s t p n (λ x low high. same x (omega arith)) word in
    let rest' = Rest-same s t (p + n) words (λ x low high. same x high) r in
    let (s', filled, kept, _) =
      fill_from_lem words fuel p n t word' rest' end' behind' (omega arith) in
    let filled' : fill_from fuel (length words + 1) p t ≡ some (p ∷ starts (p + n) words, s') =
      rw add-one filled in
    (
      s',
      parse_steps fuel heap s t p (length words)
            (trim_words s p n b fuel words before word r after end short (omega arith))
            (count_words t p n fuel words word' rest' end' (omega arith) (omega arith))
          ∙ fill_arguments_lem fuel heap heap' (length words + 1) p block t s'
              (p ∷ starts (p + n) words) granted filled',
      Ended-trim s t s' p n words same kept,
    )
