-- ===== src/Shell/Paths/Cd.antt =====
-- shell/cmd_cd.c, command_cd: the directory that a relative path leads to.
use almost_os.Prelude.{
  ℕ, zero, suc, ◌+◌, ◌-◌, ◌<◌, ◌≤◌, ◌≡◌, ◌≢◌, ◌∙◌, sym, refl, ap, false, some, Bytes, arith, ◌==◌,
  dec_lt,
}
use almost_os.Prelude.Int.{pos}
use almost_os.Util.Mem.{mem_copy_lem}
use almost_os.Util.Strings.{strlen_unsafe, strlen_unsafe_lem, append_string}
use almost_os.Util.Strings.Ends.{appended, append_string_lem}
use almost_os.Shell.Paths.{absolute_path, command_cd, set_current_dir, no_path, slash}

-- A string of `n` characters.
pub record IsString (s : Bytes) (n : ℕ) : Type 0 where
  pub inner : (j : ℕ) → j < n → s j ≢ 0
  pub end : s n ≡ 0

-- `s` is `a` of `k` characters and `b` of `m` behind each other.
pub record IsJoin (a : Bytes) (k : ℕ) (b : Bytes) (m : ℕ) (s : Bytes) : Type 0 where
  pub string : IsString s (k + m)
  pub left : (j : ℕ) → j < k → s j ≡ a j
  pub right : (j : ℕ) → j < m → s (k + j) ≡ b j

join_right :
    (a b : Bytes) (k m j : ℕ) → k + m < 99 → j ≤ m → appended a k 100 b (m + 1) (k + j) ≡ b j
join_right a b k m j room h = let place : k + j - k ≡ j = omega arith in ground (arith, ap b place)

join_inner :
    (a b : Bytes) (k m j : ℕ)
    → IsString a k
    → IsString b m
    → k + m < 99
    → j < k + m
    → appended a k 100 b (m + 1) j ≢ 0
join_inner a b k m j s t room h = elim (dec_lt j k) [
  | yes low ↦ λ e. s.inner j low (ground (arith, e))
  | no high ↦
      let place : k + (j - k) ≡ j = omega arith in
      λ e. t.inner (j - k) (omega arith) (
        sym (join_right a b k m (j - k) room (omega arith))
        ∙ ap (appended a k 100 b (m + 1)) place
        ∙ e)
]

-- Two strings with room in 100 bytes.
append_string-IsJoin :
    (fuel k m : ℕ) (a b : Bytes)
    → IsString a k
    → IsString b m
    → k + m < 99
    → k < fuel
    → (append_string fuel a 100 b (m + 1) ≡ some (appended a k 100 b (m + 1)))
      × IsJoin a k b m (appended a k 100 b (m + 1))
append_string-IsJoin fuel k m a b s t room enough = (
  append_string_lem a b 100 (m + 1) k fuel (omega arith) s.end s.inner enough,
  record {
    string = record {
      inner = λ j h. join_inner a b k m j s t room h;
      end = join_right a b k m m room (omega arith) ∙ t.end;
    };
    left = λ j h. ground arith;
    right = λ j h. join_right a b k m j room (omega arith);
  },
)

length_lem : (s : Bytes) (n : ℕ) → IsString s n → n ≤ 100 → strlen_unsafe (some s) ≡ n
length_lem s n t h = (strlen_unsafe_lem s n t.inner).0 h t.end

no_path-IsString : IsString no_path 0
no_path-IsString = record { inner = λ j h. absurd (omega arith); end = refl }

slash_inner : (j : ℕ) → j < 1 → slash j ≢ 0
slash_inner zero h = λ e. omega arith
slash_inner (suc j) h = absurd (omega arith)

slash-IsString : IsString slash 1
slash-IsString = record { inner = slash_inner; end = refl }

-- What `set_current_dir` takes over.
set_current_dir_lem :
    (current_dir path : Bytes) (n j : ℕ)
    → IsString path n
    → n < 99
    → j ≤ n
    → set_current_dir current_dir path j ≡ path j
unfolding set_current_dir
set_current_dir_lem current_dir path n j s room h =
    rw (length_lem path n s (omega arith), mem_copy_lem current_dir path (pos 100) (pos (n + 1)))
      (ground arith)

-- A relative path.
absolute_path-IsJoin :
    (fuel k m : ℕ) (current_dir arg : Bytes)
    → IsString current_dir k
    → IsString arg m
    → k + m < 99
    → arg 0 ≢ 47
    → 100 ≤ fuel
    → (b : Bytes) × (absolute_path fuel current_dir arg ≡ some b) × IsJoin current_dir k arg m b
unfolding absolute_path
absolute_path-IsJoin fuel k m current_dir arg s t room relative enough =
    let (run, first) =
      append_string-IsJoin fuel 0 k no_path current_dir no_path-IsString s (omega arith)
        (omega arith) in
    let a = appended no_path 0 100 current_dir (k + 1) in
    let same : (j : ℕ) → j < k → a j ≡ current_dir j =
      λ j h. ap a {x = j} {y = 0 + j} (omega arith) ∙ first.right j h in
    let whole : IsString a k = record {
      inner = λ j h. first.string.inner j (omega arith);
      end = ap a {x = k} {y = 0 + k} (omega arith) ∙ first.string.end;
    } in
    let (run', second) = append_string-IsJoin fuel k m a arg whole t room (omega arith) in
    let test : (arg 0 == 47) ≡ false = ground arith in
    let b = appended a k 100 arg (m + 1) in
    (
      b,
      rw (test, length_lem current_dir k s (omega arith), length_lem arg m t (omega arith), run)
          run',
      record {
        string = second.string;
        left = λ j h. second.left j h ∙ same j h;
        right = second.right;
      },
    )

-- `cd` with a relative path that is not empty and does not end in `/`, with a fuel of at least 100:
-- if the current directory, the path and a `/` have less than 99 characters, they stand behind each
-- other in the new current directory, which ends there.
pub command_cd_lem :
    (fuel k m : ℕ) (current_dir arg : Bytes)
    → IsString current_dir k
    → IsString arg (m + 1)
    → k + (m + 1) + 1 < 99
    → arg 0 ≢ 47
    → arg m ≢ 47
    → 100 ≤ fuel
    → (dir : Bytes) × (command_cd fuel current_dir arg ≡ some dir)
      × IsString dir (k + (m + 1) + 1)
      × ((j : ℕ) → j < k → dir j ≡ current_dir j)
      × ((j : ℕ) → j < m + 1 → dir (k + j) ≡ arg j)
      × (dir (k + (m + 1)) ≡ 47)
unfolding command_cd
command_cd_lem fuel k m current_dir arg s t room relative open_path enough =
    let n = k + (m + 1) in
    let (b, run, join) =
      absolute_path-IsJoin fuel k (m + 1) current_dir arg s t (omega arith) relative enough in
    let last : b (n - 1) ≡ arg m = ap b (omega arith) ∙ join.right m (omega arith) in
    let test : (b (n - 1) == 47) ≡ false = ground (arith, last) in
    let (run', ended) =
      append_string-IsJoin fuel n 1 b slash join.string slash-IsString room (omega arith) in
    let e = appended b n 100 slash (1 + 1) in
    let set =
      λ (j : ℕ) (h : j ≤ n + 1). set_current_dir_lem current_dir e (n + 1) j ended.string room h in
    (
      set_current_dir current_dir e,
      rw (run, length_lem b n join.string (omega arith), test, run') refl,
      record {
        inner = λ j h z. ended.string.inner j h (sym (set j (omega arith)) ∙ z);
        end = set (n + 1) (omega arith) ∙ ended.string.end;
      },
      λ j h. set j (omega arith) ∙ ended.left j (omega arith) ∙ join.left j h,
      λ j h. set (k + j) (omega arith) ∙ ended.left (k + j) (omega arith) ∙ join.right j h,
      set n (omega arith) ∙ ap e {x = n} {y = n + 0} (omega arith) ∙ ended.right 0 (omega arith),
    )
