-- ===== src/Router/Paths.antt =====
-- fs/filesystem_router.c, get_first_dir_in_path: the first directory of a path.
use almost_os.Prelude.{
  ℕ, zero, suc, ◌+◌, ◌-◌, ◌≤◌, ◌<◌, ◌≡◌, ◌≢◌, ◌⊎◌, inl, inr, refl, ap, ◌∙◌, fun_ext, true, false,
  some, Bytes, store, arith, ltb, ◌==◌, if◌then◌else◌, ℕ_discrete,
}
use almost_os.Prelude.Int.{pos, negsuc}
use almost_os.Util.Strings.{strlen_unsafe, strlen_unsafe_lem}
use almost_os.Router.{first_dir_from, get_first_dir_in_path}

-- A buffer with the characters of `path` from offset 0 up to `n`, and a terminator.
abbrev pub named : Bytes → Bytes → ℕ → ℕ → Bytes
named path output i n j =
    if ltb j i then output j else if ltb j n then path j else if j == n then 0 else output j

at_slash : (n i m : ℕ) (path : Bytes) → 1 ≤ n → i ≡ m → (m ≡ i + n) ⊎ (path m ≡ 47) → path i ≡ 47
at_slash n i m path some_left e (inl last) = absurd (omega arith)
at_slash n i m path some_left e (inr slash) = ap path e ∙ slash

later :
    (n i m : ℕ) (path : Bytes) → (m ≡ i + suc n) ⊎ (path m ≡ 47) → (m ≡ i + 1 + n) ⊎ (path m ≡ 47)
later n i m path (inl last) = inl (omega arith)
later n i m path (inr slash) = inr slash

-- The loop stops at the end of the first directory, if the buffer has room for its name.
first_dir_from-stop :
    (n i m left : ℕ) (path output : Bytes)
    → i ≤ m
    → m ≤ i + n
    → m < i + left
    → (m ≡ i + n) ⊎ (path m ≡ 47)
    → ((j : ℕ) → i ≤ j → j < m → path j ≢ 47)
    → first_dir_from n i path output left ≡ (pos 0, named path output i m)
unfolding first_dir_from
first_dir_from-stop zero i m left path output low high room stop inner =
    ap (λ b. (pos 0, b)) (fun_ext (λ j. ground arith))
first_dir_from-stop (suc n) i m left path output low high room stop inner = elim (ℕ_discrete i m) [
  | yes e ↦
      let here : path i ≡ 47 = at_slash (suc n) i m path (omega arith) e stop in
      let test : (path i == 47) ≡ true = ground arith in
      rw test (ap (λ b. (pos 0, b)) (fun_ext (λ j. ground arith)))
  | no ne ↦
      let test : (path i == 47) ≡ false = ground (arith, inner i (omega arith) (omega arith)) in
      let more : (left == 1) ≡ false = ground arith in
      rw (test, more)
        (first_dir_from-stop n (i + 1) m (left - 1) path (store output i (path i)) (omega arith)
            (omega arith) (omega arith) (later n i m path stop) (λ j a b. inner j (omega arith) b)
          ∙ ap (λ b. (pos 0, b)) (fun_ext (λ j. ground arith)))
]

last_or_slash :
    (path : Bytes) (len m : ℕ)
    → 2 ≤ len
    → (m + 1 ≡ len) ⊎ (path (1 + m) ≡ 47)
    → (m ≡ 0 + (len - 1)) ⊎ (path (1 + m) ≡ 47)
last_or_slash path len m long (inl last) = inl (omega arith)
last_or_slash path len m long (inr slash) = inr slash

-- For a path `/name` or `/name/…` of 2 to 100 characters, with a name of `m` characters that fits in
-- the buffer with its terminator, `get_first_dir_in_path` answers 0 and leaves the name there.
pub get_first_dir_in_path_lem :
    (path output : Bytes) (len m size : ℕ)
    → 2 ≤ len
    → len ≤ 100
    → ((j : ℕ) → j < len → path j ≢ 0)
    → path len ≡ 0
    → path 0 ≡ 47
    → m + 1 ≤ len
    → m < size
    → (m + 1 ≡ len) ⊎ (path (1 + m) ≡ 47)
    → ((j : ℕ) → j < m → path (1 + j) ≢ 47)
    → get_first_dir_in_path (some path) output size ≡ (pos 0, named (λ i. path (1 + i)) output 0 m)
unfolding get_first_dir_in_path
get_first_dir_in_path_lem path output len m size long short inner end root low room stop name =
    let length : strlen_unsafe (some path) ≡ len = (strlen_unsafe_lem path len inner).0 short end in
    let long_enough : ltb len 2 ≡ false = ground arith in
    let some_room : (size == 0) ≡ false = ground arith in
    let slash : (path 0 == 47) ≡ true = ground arith in
    simp (length, long_enough, some_room, slash)
      (first_dir_from-stop (len - 1) 0 m size (λ i. path (1 + i)) output (omega arith) (omega arith)
        (omega arith) (last_or_slash path len m long stop) (λ j a b. name j (omega arith)))

first_dir_from-long :
    (n i left : ℕ) (path output : Bytes)
    → 1 ≤ left
    → left ≤ n
    → ((j : ℕ) → i ≤ j → j < i + left → path j ≢ 47)
    → (first_dir_from n i path output left).0 ≡ negsuc 0
unfolding first_dir_from
first_dir_from-long zero i left path output some_left enough inner = absurd (omega arith)
first_dir_from-long (suc n) i left path output some_left enough inner =
    let test : (path i == 47) ≡ false = ground (arith, inner i (omega arith) (omega arith)) in
    elim (ℕ_discrete left 1) [
      | yes e ↦ let last : (left == 1) ≡ true = ground arith in rw (test, last) refl
      | no ne ↦
          let more : (left == 1) ≡ false = ground arith in
          rw (test, more)
            (first_dir_from-long n (i + 1) (left - 1) path (store output i (path i)) (omega arith)
              (omega arith) (λ j a b. inner j (omega arith) (omega arith)))
    ]

-- For a path of 2 to 100 characters that begins with a slash and whose first name is as long as the
-- buffer or longer, `get_first_dir_in_path` answers -1.
pub get_first_dir_in_path-long :
    (path output : Bytes) (len size : ℕ)
    → 2 ≤ len
    → len ≤ 100
    → ((j : ℕ) → j < len → path j ≢ 0)
    → path len ≡ 0
    → path 0 ≡ 47
    → 1 ≤ size
    → size + 1 ≤ len
    → ((j : ℕ) → j < size → path (1 + j) ≢ 47)
    → (get_first_dir_in_path (some path) output size).0 ≡ negsuc 0
unfolding get_first_dir_in_path
get_first_dir_in_path-long path output len size long short inner end root room low name =
    let length : strlen_unsafe (some path) ≡ len = (strlen_unsafe_lem path len inner).0 short end in
    let long_enough : ltb len 2 ≡ false = ground arith in
    let some_room : (size == 0) ≡ false = ground arith in
    let slash : (path 0 == 47) ≡ true = ground arith in
    simp (length, long_enough, some_room, slash)
      (first_dir_from-long (len - 1) 0 size (λ i. path (1 + i)) output room (omega arith)
        (λ j a b. name j (omega arith)))
