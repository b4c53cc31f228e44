-- ===== src/Router/Lookup.antt =====
-- fs/filesystem_router.c, find_mount: the entry of the mount table that a path selects.
use almost_os.Prelude.{
  [], ◌-◌, ℕ, zero, suc, ◌+◌, ◌<◌, ◌≡◌, refl, true, false, Option, none, some, Bytes, of_list,
  arith, ltb, ◌==◌, ℕ_discrete, Bool-cases, inl, inr,
}
use almost_os.Prelude.Int.{negsuc, int_lt, is_zero}
use almost_os.Util.CString.{strncmp}
use almost_os.Util.Strings.{strlen_unsafe}
use almost_os.Router.{
  MountTable, first_dir_from, get_first_dir_in_path, first_dir, find_mount_from, find_mount,
}

-- The entry is in use, and `strncmp` finds its first directory equal to that of the path.
abbrev pub Matches : MountTable → Bytes → ℕ → Type 0
Matches table path i =
    ((table i).fs_type ≡ 0 → ⊥)
    × (is_zero (strncmp (first_dir path).1 (first_dir (table i).directory_path).1 32) ≡ true)

-- The outcome of a search: the first entry that matches, or none at all.
pub data Lookup (table : MountTable) (path : Bytes) : Option ℕ → Type 0 where
  found :
      (i : ℕ)
      → i < 8
      → Matches table path i
      → ((j : ℕ) → j < i → Matches table path j → ⊥)
      → Lookup table path (some i)
  not_found : ((j : ℕ) → j < 8 → Matches table path j → ⊥) → Lookup table path none

first_dir_from-code :
    (n i left : ℕ) (path output : Bytes)
    → int_lt (first_dir_from n i path output left).0 (negsuc 0) ≡ false
unfolding first_dir_from
first_dir_from-code zero i left path output = refl
first_dir_from-code (suc n) i left path output = elim (Bool-cases (path i == 47)) [
  | inl slash ↦ rw slash refl
  | inr other ↦ elim (Bool-cases (left == 1)) [
    | inl last ↦ rw (other, last) refl
    | inr more ↦ rw (other, more) (first_dir_from-code n (i + 1) (left - 1) path _)
  ]
]

-- No result of `get_first_dir_in_path` is below -1.
code_lem :
    (path output : Bytes) (size : ℕ)
    → int_lt (get_first_dir_in_path (some path) output size).0 (negsuc 0) ≡ false
unfolding get_first_dir_in_path
code_lem path output size = elim (Bool-cases (ltb (strlen_unsafe (some path)) 2)) [
  | inl short ↦ rw short refl
  | inr long ↦ elim (Bool-cases (size == 0)) [
    | inl no_room ↦ rw (long, no_room) refl
    | inr room ↦ elim (Bool-cases (path 0 == 47)) [
      | inl slash ↦
          simp (long, room, slash)
            (first_dir_from-code (strlen_unsafe (some path) - 1) 0 size (λ i. path (1 + i)) output)
      | inr other ↦
          simp (long, room, other)
            (first_dir_from-code (strlen_unsafe (some path)) 0 size path output)
    ]
  ]
]

known_up_to :
    (table : MountTable) (path : Bytes) (i : ℕ)
    → ((j : ℕ) → j < i → Matches table path j → ⊥)
    → (Matches table path i → ⊥)
    → (j : ℕ) → j < i + 1
    → Matches table path j
    → ⊥
known_up_to table path i known no_match j h m = elim (ℕ_discrete j i) [
  | yes e ↦ no_match (rw e at m)
  | no other ↦ known j (omega arith) m
]

find_mount_from-Lookup :
    (n i : ℕ) (table : MountTable) (path : Bytes)
    → i + n ≡ 8
    → ((j : ℕ) → j < i → Matches table path j → ⊥)
    → Lookup table path (find_mount_from n i table path)
unfolding find_mount_from
find_mount_from-Lookup zero i table path e known = not_found (λ j h. known j (omega arith))
find_mount_from-Lookup (suc n) i table path e known = elim (Bool-cases ((table i).fs_type == 0)) [
  | inl free ↦ rw free (
      find_mount_from-Lookup n (i + 1) table path (omega arith)
        (known_up_to table path i known (λ m. m.0 (ground arith))))
  | inr used ↦
      elim (Bool-cases
        (is_zero (strncmp (first_dir path).1 (first_dir (table i).directory_path).1 32))) [
          | inl same ↦
              simp
                (
                  used,
                  code_lem path (of_list []) 32,
                  code_lem (table i).directory_path (of_list []) 32,
                  same,
                )
                (found i (omega arith) ((λ z. ground arith), same) known)
          | inr differ ↦
              simp
                (
                  used,
                  code_lem path (of_list []) 32,
                  code_lem (table i).directory_path (of_list []) 32,
                  differ,
                )
                (find_mount_from-Lookup n (i + 1) table path (omega arith)
                  (known_up_to table path i known (λ m. ground (arith, m.1))))
        ]
]

-- For every table and path `find_mount` gives the first entry in use whose first directory
-- `strncmp` finds equal to that of the path, or -1 if there is none. It does so also where a first
-- directory could not be read: then the part of it that was written is compared.
pub find_mount-Lookup :
    (table : MountTable) (path : Bytes) → Lookup table path (find_mount table (some path))
unfolding find_mount
find_mount-Lookup table path =
    find_mount_from-Lookup 8 0 table path refl (λ j h. absurd (omega arith))
