-- ===== src/Router/Listing/Bounds.antt =====
-- fs/filesystem_router.c, get_list_of_files: the caller's buffer is large enough for what is
-- written.
use mathlib.Core.Path.{subst}
use almost_os.Prelude.{
  ℕ, ◌<◌, ◌≤◌, ◌≡◌, ◌≢◌, ◌&&◌, sym, refl, true, Bool-cases, inl, inr, Option, some, List, Bytes,
  arith, ltb, ◌==◌,
}
use almost_os.Prelude.Int.{ℤ, pos, negsuc}
use almost_os.Prelude.Maybe.{option_map, option_or}
use almost_os.Util.Mem.{mem_copy_lem}
use almost_os.TinyFs.Disk.{Disk}
use almost_os.TinyFs.Rootdir.{Junk, rootdir_get_table_size}
use almost_os.Router.{MountTable, find_mount}
use almost_os.Router.Lookup.{Lookup, found, not_found, find_mount-Lookup}
use almost_os.Router.Listing.{
  Listing, get_list_of_files, dispatch_list, empty_listing, listed, list_fixed, list_found,
  vfs_names, test_names,
}
use almost_os.Router.Listing.Room.{
  Kept, kept, add_names, add_names-Kept, mount_names, file_names, list_mounts_from_lem,
  list_files_from_lem,
}

-- The outcome of a list: no more bytes than the buffer has, and what is behind them as it was; or
-- -1 and the buffer as it was.
pub data Answer (size : ℕ) (buffer : Bytes) : Option (ℤ × Bytes) → Type 0 where
  filled :
      (n : ℕ) (b : Bytes)
      → n ≤ size
      → ((k : ℕ) → size ≤ k → b k ≡ buffer k)
      → Answer size buffer (some (pos n, b))
  no_mount : Answer size buffer (some (negsuc 0, buffer))

Answer-of_Kept :
    (size : ℕ) (buffer : Bytes) (o : Option Listing)
    → Kept size buffer o
    → Answer size buffer (option_map listed o)
Answer-of_Kept size buffer o (kept l w) = filled l.offset l.buffer (omega (arith, w.room)) w.behind

loop-Answer :
    (size : ℕ) (buffer : Bytes) (names : List Bytes)
    → 1 ≤ size
    → Answer size buffer (option_map listed (add_names names (empty_listing buffer size)))
loop-Answer size buffer names some_room = Answer-of_Kept size buffer _ (
    add_names-Kept size buffer names (empty_listing buffer size) some_room
      (record { room = omega arith; behind = λ k p. refl }))

list_fixed-Answer :
    (names buffer : Bytes) (n size : ℕ) → Answer size buffer (some (list_fixed names n buffer size))
list_fixed-Answer names buffer n size =
    subst (λ c. Answer size buffer (some (c.0, option_or c.1 buffer)))
      (sym (mem_copy_lem buffer names (pos size) (pos n)))
      (elim (Bool-cases (ltb size n)) [
        | inl cut ↦ rw cut (filled size _ (omega arith) (λ k p. ground arith))
        | inr whole ↦ rw whole (filled n _ (ground arith) (λ k p. ground arith))
      ])

dispatch_list-Answer :
    (fs_type : ℕ) (d : Disk) (junk : Junk) (fall_off : ℤ) (buffer : Bytes) (size count : ℕ)
    → 1 ≤ size
    → fs_type ≢ 0
    → fs_type ≤ 3
    → rootdir_get_table_size d ≡ some count
    → Answer size buffer (dispatch_list fs_type d junk fall_off buffer size)
unfolding dispatch_list
dispatch_list-Answer fs_type d junk fall_off buffer size count some_room used known table_size =
    elim (Bool-cases (fs_type == 1)) [
      | inl tiny ↦
          rw (tiny, table_size)
            (subst (λ o. Answer size buffer (option_map listed o))
              (sym (list_files_from_lem count 0 d junk junk.entry (empty_listing buffer size)))
              (loop-Answer size buffer (file_names count 0 d junk junk.entry) some_room))
      | inr other ↦ elim (Bool-cases (fs_type == 2)) [
        | inl virtual ↦ rw (other, virtual) (list_fixed-Answer vfs_names buffer 19 size)
        | inr rest ↦
            let test : (fs_type == 3) ≡ true = ground arith in
            rw (other, rest, test) (list_fixed-Answer test_names buffer 29 size)
      ]
    ]

list_found-Answer :
    (table : MountTable) (d : Disk) (junk : Junk) (fall_off : ℤ) (path buffer : Bytes)
    (size count : ℕ) (m : Option ℕ)
    → Lookup table path m
    → 1 ≤ size
    → ((i : ℕ) → i < 8 → (table i).fs_type ≤ 3)
    → rootdir_get_table_size d ≡ some count
    → Answer size buffer (list_found table d junk fall_off buffer size m)
list_found-Answer table d junk fall_off path buffer size count m (not_found no_match) some_room
      known table_size =
    no_mount
list_found-Answer table d junk fall_off path buffer size count m (found i low match first) some_room
      known table_size =
    dispatch_list-Answer (table i).fs_type d junk fall_off buffer size count some_room match.0
      (known i low) table_size

-- With a buffer of at least one byte, a root directory whose chain ends, and a table of mounts whose
-- types are the three that there are, `get_list_of_files` answers a number of bytes that is at most
-- the buffer's size and writes nothing behind the buffer, also where the names do not fit; or it
-- answers -1 and leaves the buffer as it is.
pub get_list_of_files_bounds :
    (table : MountTable) (d : Disk) (junk : Junk) (fall_off : ℤ) (path buffer : Bytes)
    (size count : ℕ)
    → 1 ≤ size
    → ((i : ℕ) → i < 8 → (table i).fs_type ≤ 3)
    → rootdir_get_table_size d ≡ some count
    → Answer size buffer (get_list_of_files table d junk fall_off path buffer size)
unfolding get_list_of_files
get_list_of_files_bounds table d junk fall_off path buffer size count some_room known table_size =
    elim (Bool-cases (path 0 == 47 && path 1 == 0)) [
      | inl root ↦ rw root (
          subst (λ o. Answer size buffer (option_map listed o))
            (sym (list_mounts_from_lem 8 0 table (empty_listing buffer size)))
            (loop-Answer size buffer (mount_names 8 0 table) some_room))
      | inr inner ↦ rw inner (
          list_found-Answer table d junk fall_off path buffer size count
            (find_mount table (some path)) (find_mount-Lookup table path) some_room known
            table_size)
    ]
