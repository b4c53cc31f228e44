-- ===== src/Router/Listing/Room.antt =====
-- fs/filesystem_router.c, get_list_of_files: the loops as one run over a list of names, and the
-- room they use.
use mathlib.Core.Path.{subst}
use almost_os.Prelude.{
  ℕ, zero, suc, ◌+◌, ◌-◌, ◌<◌, ◌≤◌, ◌≡◌, ◌∙◌, sym, refl, ap, fun_ext, inl, inr, false, Option, some,
  List, [], ◌∷◌, Bytes, advance, store, arith, ltb, ◌==◌, if◌then◌else◌, Bool-cases,
}
use almost_os.Prelude.Int.{pos, negsuc, is_zero}
use almost_os.Prelude.Maybe.{◌>>=◌}
use almost_os.Util.Mem.{mem_copy_lem}
use almost_os.Util.Strings.{strlen_unsafe}
use almost_os.TinyFs.Disk.{Disk}
use almost_os.TinyFs.Rootdir.{FileEntry, Junk, rootdir_get_file_entry}
use almost_os.Router.{MountTable}
use almost_os.Router.Listing.{Listing, add_copied, add_name, list_mounts_from, list_files_from}

-- The names one after the other.
abbrev pub add_names : List Bytes → Listing → Option Listing
add_names [] l = some l
add_names (name ∷ names) l = add_name l name >>= (λ l'. add_names names l')

-- The paths of the mounts in use, and the names of the files in use.
abbrev pub mount_names : ℕ → ℕ → MountTable → List Bytes
mount_names zero i table = []
mount_names (suc n) i table =
    let rest = mount_names n (i + 1) table in
    if (table i).fs_type == 0 then rest else (table i).directory_path ∷ rest

abbrev pub file_names : ℕ → ℕ → Disk → Junk → FileEntry → List Bytes
file_names zero i d junk entry = []
file_names (suc n) i d junk entry =
    let rest = file_names n (i + 1) d junk (rootdir_get_file_entry d junk i entry).1 in
    if is_zero (rootdir_get_file_entry d junk i entry).0
    then (rootdir_get_file_entry d junk i entry).1.name ∷ rest
    else rest

pub list_mounts_from_lem :
    (n i : ℕ) (table : MountTable) (l : Listing)
    → list_mounts_from n i table l ≡ add_names (mount_names n i table) l
unfolding list_mounts_from
list_mounts_from_lem zero i table l = refl
list_mounts_from_lem (suc n) i table l = elim (Bool-cases ((table i).fs_type == 0)) [
  | inl free ↦ rw free (list_mounts_from_lem n (i + 1) table l)
  | inr used ↦ rw used (
      ap (λ f. add_name l (table i).directory_path >>= f)
        (fun_ext (λ l'. list_mounts_from_lem n (i + 1) table l')))
]

pub list_files_from_lem :
    (n i : ℕ) (d : Disk) (junk : Junk) (entry : FileEntry) (l : Listing)
    → list_files_from n i d junk entry l ≡ add_names (file_names n i d junk entry) l
unfolding list_files_from
list_files_from_lem zero i d junk entry l = refl
list_files_from_lem (suc n) i d junk entry l =
    let entry' = (rootdir_get_file_entry d junk i entry).1 in
    elim (Bool-cases (is_zero (rootdir_get_file_entry d junk i entry).0)) [
      | inl used ↦ rw used (
          ap (λ f. add_name l entry'.name >>= f)
            (fun_ext (λ l'. list_files_from_lem n (i + 1) d junk entry' l')))
      | inr free ↦ rw free (list_files_from_lem n (i + 1) d junk entry' l)
    ]

-- A listing within the room of `size` bytes of `buffer`: what is behind is as it was, and something
-- is in front of the pointer if nothing is left.
pub record Within (size : ℕ) (buffer : Bytes) (l : Listing) : Type 0 where
  pub room : l.offset + l.left ≡ size
  pub behind : (k : ℕ) → size ≤ k → l.buffer k ≡ buffer k

-- The outcome of a step: there is a listing, within the room.
pub data Kept (size : ℕ) (buffer : Bytes) : Option Listing → Type 0 where
  kept : (l : Listing) → Within size buffer l → Kept size buffer (some l)

-- The listing with `len` characters of the name, and its terminator.
abbrev pub added : Listing → Bytes → ℕ → Listing
added l name len = record {
  buffer = λ k.
      if ltb k l.offset
      then l.buffer k
      else if ltb k (l.offset + len)
      then name (k - l.offset)
      else if k == l.offset + len
      then 0
      else l.buffer k;
  offset = l.offset + len + 1;
  left = l.left - (len + 1);
}

-- With room left, as much of the name is added as leaves a place for the terminator.
pub add_name_lem :
    (buffer : Bytes) (offset left : ℕ) (name : Bytes)
    → add_name (record { buffer = buffer; offset = offset; left = suc left }) name
      ≡ some (
          added
            (record { buffer = buffer; offset = offset; left = suc left })
            name
            (if ltb left (strlen_unsafe (some name)) then left else strlen_unsafe (some name)))
unfolding add_name
add_name_lem buffer offset left name =
    let l : Listing = record { buffer = buffer; offset = offset; left = suc left } in
    let n = strlen_unsafe (some name) in
    ap (add_copied l) (mem_copy_lem (advance buffer offset) name (pos left) (pos n))
    ∙ (elim (Bool-cases (ltb left n)) [
      | inl cut ↦ rw cut (
          ap
            (λ b.
              some
                (record { buffer = b; offset = offset + left + 1; left = suc left - (left + 1) }))
            (fun_ext (λ k. ground arith)))
      | inr whole ↦ rw whole (
          ap (λ b. some (record { buffer = b; offset = offset + n + 1; left = suc left - (n + 1) }))
            (fun_ext (λ k. ground arith)))
    ])

Within-added :
    (size : ℕ) (buffer : Bytes) (l : Listing) (name : Bytes) (len : ℕ)
    → Within size buffer l
    → len < l.left
    → Within size buffer (added l name len)
Within-added size buffer l name len w h = record {
  room = omega (arith, w.room);
  behind = λ k p. ground (arith, w.room, w.behind k p);
}

-- Without room left, the terminator before the pointer is written again.
add_name-full :
    (size : ℕ) (buffer b : Bytes) (offset : ℕ) (name : Bytes)
    → 1 ≤ size
    → Within size buffer (record { buffer = b; offset = offset; left = 0 })
    → Kept size buffer (add_name (record { buffer = b; offset = offset; left = 0 }) name)
unfolding add_name
add_name-full size buffer b offset name some_room w =
    let full : Listing = record { buffer = b; offset = offset; left = 0 } in
    let n = strlen_unsafe (some name) in
    let behind_it : ltb offset 1 ≡ false = ground (arith, w.room) in
    subst (λ c. Kept size buffer (add_copied full c))
      (sym (mem_copy_lem (advance b offset) name (negsuc 0) (pos n)))
      (rw behind_it (
        kept (record { buffer = store b (offset - 1) 0; offset = offset - 1 + 1; left = 0 })
          (record {
            room = omega (arith, w.room);
            behind = λ k p. ground (arith, w.room, w.behind k p);
          })))

add_name_by-Kept :
    (size : ℕ) (buffer b : Bytes) (offset left : ℕ) (name : Bytes)
    → 1 ≤ size
    → Within size buffer (record { buffer = b; offset = offset; left = left })
    → Kept size buffer (add_name (record { buffer = b; offset = offset; left = left }) name)
add_name_by-Kept size buffer b offset zero name some_room w =
    add_name-full size buffer b offset name some_room w
add_name_by-Kept size buffer b offset (suc left) name some_room w =
    subst (Kept size buffer) (sym (add_name_lem b offset left name))
      (kept _ (Within-added size buffer _ name _ w (ground arith)))

pub add_name-Kept :
    (size : ℕ) (buffer : Bytes) (l : Listing) (name : Bytes)
    → 1 ≤ size
    → Within size buffer l
    → Kept size buffer (add_name l name)
add_name-Kept size buffer l name = add_name_by-Kept size buffer l.buffer l.offset l.left name

Kept-bind :
    (size : ℕ) (buffer : Bytes) (o : Option Listing) (f : Listing → Option Listing)
    → Kept size buffer o
    → ((l : Listing) → Within size buffer l → Kept size buffer (f l))
    → Kept size buffer (o >>= f)
Kept-bind size buffer o f (kept l w) next = next l w

pub add_names-Kept :
    (size : ℕ) (buffer : Bytes) (names : List Bytes) (l : Listing)
    → 1 ≤ size
    → Within size buffer l
    → Kept size buffer (add_names names l)
add_names-Kept size buffer [] l some_room w = kept l w
add_names-Kept size buffer (name ∷ names) l some_room w =
    Kept-bind size buffer (add_name l name) (add_names names)
      (add_name-Kept size buffer l name some_room w)
      (λ l' w'. add_names-Kept size buffer names l' some_room w')
