-- ===== src/Shell/Line.antt =====
-- shell/shell.c, shell_on_input: the input line as a text that keys edit.
use almost_os.Prelude.{
  ℕ, zero, suc, ◌+◌, ◌-◌, ◌<◌, ◌≤◌, ◌≡◌, ◌≢◌, refl, ◌∙◌, false, ◌||◌, Option, some, List, [], ◌∷◌,
  ◌++◌, arith, ltb, ◌==◌, if◌then◌else◌, length, length-append, get_or, get_or-append, Bool-cases,
  inl, inr, All, ℕ_discrete,
}
use almost_os.Prelude.Maybe.{◌>>=◌}
use almost_os.Shell.{Shell, add_to_line, delete_from_line, shell_on_input}
use almost_os.Shell.Commands.{Surroundings}

-- The text without its last character.
unfoldable pub drop_last : List ℕ → List ℕ
drop_last [] = []
drop_last (c ∷ []) = []
drop_last (c ∷ d ∷ t) = c ∷ drop_last (d ∷ t)

-- What a key that is not Enter does to a text.
unfoldable pub edit : List ℕ → ℕ → List ℕ
unfolding drop_last
edit t key = if key == 8 || key == 127 then drop_last t else t ++ key ∷ []

unfoldable pub edits : List ℕ → List ℕ → List ℕ
unfolding edit
edits t [] = t
edits t (key ∷ keys) = edits (edit t key) keys

-- The keys reach the shell one after the other.
unfoldable pub type_keys : ℕ → Surroundings → Shell → List ℕ → Option Shell
type_keys fuel env s [] = some s
type_keys fuel env s (key ∷ keys) =
    shell_on_input fuel env s key >>= (λ s'. type_keys fuel env s' keys)

-- The line is the text, ended by a 0.
pub record IsLine (s : Shell) (t : List ℕ) : Type 0 where
  pub len : s.input_len ≡ length t
  pub content : (j : ℕ) → j < length t → s.input_line j ≡ get_or t j 0
  pub end : s.input_line (length t) ≡ 0

get_or-last : (t : List ℕ) (c : ℕ) → get_or (t ++ c ∷ []) (length t) 0 ≡ c
get_or-last [] c = refl
get_or-last (d ∷ t) c = get_or-last t c

get_or-init : (t : List ℕ) (c j : ℕ) → j < length t → get_or (t ++ c ∷ []) j 0 ≡ get_or t j 0
get_or-init t c j h = ground (arith, get_or-append {0} t (c ∷ []) j 0)

add_to_line-IsLine :
    (s : Shell) (t : List ℕ) (key : ℕ)
    → IsLine s t
    → length t < 49
    → IsLine (add_to_line s key) (t ++ key ∷ [])
unfolding add_to_line
add_to_line-IsLine s t key v room =
    let l : length (t ++ key ∷ []) ≡ length t + 1 = length-append {0} t (key ∷ []) in
    record {
      len = omega (arith, l);
      content = λ j h. elim (ℕ_discrete j (length t)) [
        | yes e ↦ rw e (ground (arith, get_or-last t key))
        | no ne ↦ ground (arith, l, v.content j, get_or-init t key j (omega (arith, l)))
      ];
      end = rw l (ground arith);
    }

length-drop_last : (t : List ℕ) → length (drop_last t) ≡ length t - 1
unfolding drop_last
length-drop_last [] = refl
length-drop_last (c ∷ []) = refl
length-drop_last (c ∷ d ∷ t) = omega (arith, length-drop_last (d ∷ t))

get_or-drop_last : (t : List ℕ) (j : ℕ) → j < length t - 1 → get_or (drop_last t) j 0 ≡ get_or t j 0
unfolding drop_last
get_or-drop_last [] j h = refl
get_or-drop_last (c ∷ []) j h = absurd (omega arith)
get_or-drop_last (c ∷ d ∷ t) zero h = refl
get_or-drop_last (c ∷ d ∷ t) (suc j) h = get_or-drop_last (d ∷ t) j (omega arith)

delete_from_line-IsLine :
    (s : Shell) (t : List ℕ) → IsLine s t → IsLine (delete_from_line s) (drop_last t)
unfolding delete_from_line
delete_from_line-IsLine s t v =
    let l = length-drop_last t in
    record {
      len = ground (arith, l);
      content = λ j h.
          ground
            (arith, l, v.content j (omega (arith, l)), get_or-drop_last t j (omega (arith, l)));
      end = rw l (ground arith);
    }

-- What a key leaves alone.
abbrev pub SameRest : Shell → Shell → Type 0
SameRest s s' =
    ((j : ℕ) → 50 < j → s'.input_line j ≡ s.input_line j)
    × (s'.current_dir ≡ s.current_dir)
    × (s'.heap ≡ s.heap)
    × (s'.processes ≡ s.processes)

add_to_line-SameRest : (s : Shell) (key : ℕ) → s.input_len ≤ 49 → SameRest s (add_to_line s key)
unfolding add_to_line
add_to_line-SameRest s key h = (λ j far. ground arith, refl, refl, refl)

delete_from_line-SameRest : (s : Shell) → s.input_len ≤ 49 → SameRest s (delete_from_line s)
unfolding delete_from_line
delete_from_line-SameRest s h = elim (Bool-cases (ltb 0 s.input_len)) [
  | inl some_left ↦ rw some_left (λ j far. ground arith, refl, refl, refl)
  | inr none_left ↦ rw none_left (λ j far. refl, refl, refl, refl)
]

shell_on_input-edit :
    (fuel : ℕ) (env : Surroundings) (s : Shell) (t : List ℕ) (key : ℕ)
    → IsLine s t
    → length t < 49
    → key ≢ 10
    → key ≢ 13
    → (s' : Shell) × (shell_on_input fuel env s key ≡ some s')
      × IsLine s' (edit t key)
      × SameRest s s'
      × (length (edit t key) ≤ length t + 1)
unfolding shell_on_input edit
shell_on_input-edit fuel env s t key v room lf cr =
    let enter : (key == 10 || key == 13) ≡ false = ground arith in
    elim (Bool-cases (key == 8 || key == 127)) [
      | inl delete ↦ (
        delete_from_line s,
        rw (enter, delete) refl,
        rw delete (delete_from_line-IsLine s t v),
        delete_from_line-SameRest s (omega (arith, v.len)),
        rw delete (omega (arith, length-drop_last t)),
      )
      | inr other ↦ (
        add_to_line s key,
        rw (enter, other) refl,
        rw other (add_to_line-IsLine s t key v room),
        add_to_line-SameRest s key (omega (arith, v.len)),
        rw other (omega (arith, length-append {0} t (key ∷ []))),
      )
    ]

SameRest-trans : (s s' s'' : Shell) → SameRest s s' → SameRest s' s'' → SameRest s s''
SameRest-trans s s' s'' (l, d, h, p) (l', d', h', p') =
    (λ j far. l' j far ∙ l j far, d' ∙ d, h' ∙ h, p' ∙ p)

-- Typing into the shell. If its line is a text, and the keys contain no Enter and cannot bring the
-- text to more than 49 characters, then the shell takes them all. Its line is then the text that the
-- keys edit: the keys 8 and 127 take the last character away, any other is added to the end. The
-- current directory, the heap and the processes stay, and so does the memory behind the 51 bytes
-- from the start of the line.
pub type_keys-edits :
    (fuel : ℕ) (env : Surroundings) (s : Shell) (t keys : List ℕ)
    → IsLine s t
    → length t + length keys ≤ 49
    → All (λ key. (key ≢ 10) × (key ≢ 13)) keys
    → (s' : Shell) × (type_keys fuel env s keys ≡ some s')
      × IsLine s' (edits t keys)
      × SameRest s s'
unfolding type_keys edits
type_keys-edits fuel env s t [] v room plain = (s, refl, v, ((λ j far. refl), refl, refl, refl))
type_keys-edits fuel env s t (key ∷ keys) v room ((lf, cr), plain) =
    let (s1, done, v1, same, grown) = shell_on_input-edit fuel env s t key v (omega arith) lf cr in
    let (s2, typed, v2, same') =
      type_keys-edits fuel env s1 (edit t key) keys v1 (omega (arith, grown)) plain in
    (s2, rw done typed, v2, SameRest-trans s s1 s2 same same')
