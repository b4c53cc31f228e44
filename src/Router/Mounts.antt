-- ===== src/Router/Mounts.antt =====
-- fs/filesystem_router.c, mount_fs: where a mount goes in the table.
use almost_os.Prelude.{
  ℕ, zero, suc, ◌+◌, ◌<◌, ◌≡◌, ◌≢◌, refl, true, false, some, Bytes, arith, ◌==◌, ℕ_discrete, ltb,
  ◌&&◌, if◌then◌else◌,
}
use almost_os.Prelude.Int.{ℤ, pos, negsuc}
use almost_os.Util.Mem.{mem_copy_lem}
use almost_os.Util.Strings.{strlen_unsafe}
use almost_os.Router.{MountTable, MountTableEntry, mounted_entry, mount_from, mount_fs}

-- The path in an entry of 64 bytes: its characters, 63 of them at most, and a 0 in the last byte. The
-- other bytes are those that the entry had.
abbrev pub stored_path : Bytes → Bytes → ℕ → ℕ
stored_path old path k =
    if k == 63 then 0 else if ltb k 63 && ltb k (strlen_unsafe (some path)) then path k else old k

-- The outcome of a mount: the first free entry is filled and all others stay; or no entry is free,
-- the answer is -1 and the table stays.
pub data Mounting (table : MountTable) (fs_type : ℕ) (path : Bytes) : ℤ × MountTable → Type 0 where
  mounted :
      (i : ℕ) (table' : MountTable)
      → i < 8
      → (table i).fs_type ≡ 0
      → ((j : ℕ) → j < i → (table j).fs_type ≢ 0)
      → (table' i).fs_type ≡ fs_type
      → ((k : ℕ) → (table' i).directory_path k ≡ stored_path (table i).directory_path path k)
      → ((j : ℕ) → j ≢ i → table' j ≡ table j)
      → Mounting table fs_type path (pos i, table')
  table_full :
      ((j : ℕ) → j < 8 → (table j).fs_type ≢ 0) → Mounting table fs_type path (negsuc 0, table)

mounted_entry_lem :
    (entry : MountTableEntry) (fs_type : ℕ) (path : Bytes)
    → ((mounted_entry entry fs_type path).fs_type ≡ fs_type)
      × ((k : ℕ)
          → (mounted_entry entry fs_type path).directory_path k
            ≡ stored_path entry.directory_path path k)
unfolding mounted_entry
mounted_entry_lem entry fs_type path = (
  refl,
  λ k.
      rw (mem_copy_lem entry.directory_path path (pos 64) (pos (strlen_unsafe (some path))))
        (ground arith),
)

known_up_to :
    (table : MountTable) (i : ℕ)
    → ((j : ℕ) → j < i → (table j).fs_type ≢ 0)
    → (table i).fs_type ≢ 0
    → (j : ℕ) → j < i + 1
    → (table j).fs_type ≢ 0
known_up_to table i known ne j h = elim (ℕ_discrete j i) [
  | yes e ↦ rw e ne
  | no other ↦ known j (omega arith)
]

mount_from-Mounting :
    (n i : ℕ) (table : MountTable) (fs_type : ℕ) (path : Bytes)
    → i + n ≡ 8
    → ((j : ℕ) → j < i → (table j).fs_type ≢ 0)
    → Mounting table fs_type path (mount_from n i table fs_type path)
unfolding mount_from
mount_from-Mounting zero i table fs_type path e known = table_full (λ j h. known j (omega arith))
mount_from-Mounting (suc n) i table fs_type path e known = elim (ℕ_discrete (table i).fs_type 0) [
  | yes free ↦
      let test : ((table i).fs_type == 0) ≡ true = ground arith in
      let filled = mounted_entry_lem (table i) fs_type path in
      rw test (
        mounted i _ (omega arith) free known (ground (arith, filled.0))
          (λ k. ground (arith, filled.1 k)) (λ j ne. ground arith))
  | no used ↦
      let test : ((table i).fs_type == 0) ≡ false = ground arith in
      rw test (
        mount_from-Mounting n (i + 1) table fs_type path (omega arith)
          (known_up_to table i known used))
]

-- `mount_fs` of a file system type other than none puts the type in the first free entry of the table,
-- and the characters of the path that `strlen_unsafe` counts, 63 of them at most; it answers the
-- index of the entry, and all other entries are as they were. If none of the 8 entries is free it
-- answers -1 and the table is as it was.
pub mount_fs-Mounting :
    (table : MountTable) (fs_type : ℕ) (path : Bytes)
    → fs_type ≢ 0
    → Mounting table fs_type path (mount_fs table fs_type (some path))
unfolding mount_fs
mount_fs-Mounting table fs_type path ne =
    let test : (fs_type == 0) ≡ false = ground arith in
    rw test (mount_from-Mounting 8 0 table fs_type path refl (λ j h. absurd (omega arith)))
