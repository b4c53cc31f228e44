-- ===== src/TinyFs/Rootdir.antt =====
-- fs/tinyfs/code/rootdir_cluster.c: the table of files, 16 bytes each, in the chain of cluster 2:
-- a name of 13 bytes, the size in two bytes, and the first cluster.
-- What an uninitialised variable holds is an argument (`junk`).
pub mod Window
pub mod Entries
use almost_os.Prelude.{
  ℕ, zero, suc, ◌+◌, ◌-◌, ◌*◌, ◌/◌, ◌||◌, ◌&&◌, Option, none, some, Bytes, ltb, ◌==◌, if◌then◌else◌,
  u16, u32,
}
use almost_os.Prelude.Int.{ℤ, pos, negsuc, is_zero, or}
use almost_os.Prelude.Maybe.{◌>>=◌}
use almost_os.Util.CString.{strlen, strncmp}
use almost_os.TinyFs.Disk.{Disk, cluster_rootdir_table, chain_end}
use almost_os.TinyFs.Cluster.{
  disk_full, cluster_read_8bit, cluster_read_16bit, cluster_read_data, cluster_write_8bit,
  cluster_write_16bit, cluster_write_data, fat_allocate_cluster, free_clusters,
  get_cluster_chain_size,
}

abbrev pub file_size_offset : ℕ
file_size_offset = 13

abbrev pub cluster_num_offset : ℕ
cluster_num_offset = 15

abbrev pub max_filename_size : ℕ
max_filename_size = 13

abbrev pub size_of_file_entry : ℕ
size_of_file_entry = 16

-- `struct file_entry`; `is_used` is the first byte of `name`.
pub record FileEntry : Type 0 where
  pub name : Bytes
  pub data_cluster : ℕ
  pub file_size : ℕ

-- The variables that the functions of this file leave uninitialised.
pub record Junk : Type 0 where
  pub entry_is_used : ℕ
  pub high_val : ℕ
  pub low_val : ℕ
  pub entry : FileEntry

-- `rootdir_init`
unfoldable pub rootdir_init : Disk → ℕ → ℤ × Disk
rootdir_init d cluster_size =
    if cluster_size == 0
    then (negsuc 0, d)
    else (pos 0, record d { rootdir_cluster_size = cluster_size })

-- `rootdir_get_table_size`
unfoldable pub rootdir_get_table_size : Disk → Option ℕ
rootdir_get_table_size d = do
  clusters ← get_cluster_chain_size d cluster_rootdir_table
  elim clusters [
    | negsuc n ↦ some 0
    | pos n ↦ some (u32 (n * d.rootdir_cluster_size) / size_of_file_entry)
  ]

-- `calculate_file_entry_offset`
abbrev pub calculate_file_entry_offset : ℕ → ℕ
calculate_file_entry_offset index = u32 (index * size_of_file_entry)

-- The writes of `rootdir_set_file_entry`, with `filename_len` bytes of the name.
unfoldable pub write_file_entry : Disk → ℕ → Bytes → ℕ → ℕ → ℕ → ℤ × Disk
write_file_entry d entry_offset filename filename_len size cluster =
    let (r₁, d₁) = cluster_write_data d cluster_rootdir_table entry_offset filename filename_len in
    let (r₂, d₂) =
      cluster_write_8bit d₁ cluster_rootdir_table (u32 (entry_offset + max_filename_size - 1)) 0 in
    let (r₃, d₃) =
      cluster_write_16bit d₂ cluster_rootdir_table (u32 (entry_offset + file_size_offset)) size in
    let (r₄, d₄) =
      cluster_write_8bit d₃ cluster_rootdir_table (u32 (entry_offset + cluster_num_offset))
        cluster in
    (or (or (or r₁ r₂) r₃) r₄, d₄)

-- `rootdir_set_file_entry`; a NULL name is `none`.
unfoldable pub rootdir_set_file_entry : Disk → ℕ → Option Bytes → ℕ → ℕ → Option (ℤ × Disk)
rootdir_set_file_entry d index none size cluster = some (negsuc 0, d)
rootdir_set_file_entry d index (some filename) size cluster =
    if cluster == 0 || cluster == chain_end then some (negsuc 0, d) else do
      len ← strlen filename
      some (
          write_file_entry d (calculate_file_entry_offset index) filename
            (if ltb max_filename_size (len + 1) then max_filename_size else len + 1) size cluster)

-- `rootdir_set_file_size`
unfoldable pub rootdir_set_file_size : Disk → ℕ → ℕ → ℤ × Disk
rootdir_set_file_size d index size =
    cluster_write_16bit d cluster_rootdir_table
      (u32 (calculate_file_entry_offset index + file_size_offset)) (u16 size)

-- `rootdir_get_file_entry`: the result code and what `*entry` holds then.
unfoldable pub rootdir_get_file_entry : Disk → Junk → ℕ → FileEntry → ℤ × FileEntry
rootdir_get_file_entry d junk index entry =
    let offset = calculate_file_entry_offset index in
    let (r₀, is_used) = cluster_read_8bit d cluster_rootdir_table offset junk.entry_is_used in
    let (r₁, name) =
      cluster_read_data d cluster_rootdir_table offset entry.name max_filename_size in
    let (r₂, size) =
      cluster_read_16bit d cluster_rootdir_table (u32 (offset + file_size_offset)) junk.high_val
        junk.low_val in
    let (r₃, cluster) =
      cluster_read_8bit d cluster_rootdir_table (u32 (offset + cluster_num_offset))
        entry.data_cluster in
    if is_used == 0 then (negsuc 0, entry) else (
      or (or (or r₀ r₁) r₂) r₃,
      record { name = name; data_cluster = cluster; file_size = size },
    )

-- `n` rounds of the loop of `rootdir_find_file` from entry `i`; the variable `entry` keeps what the
-- last round left in it.
unfoldable pub find_file_from : ℕ → ℕ → Disk → Junk → Bytes → FileEntry → ℤ
find_file_from zero i d junk filename entry = negsuc 0
find_file_from (suc n) i d junk filename entry =
    let (ret, entry') = rootdir_get_file_entry d junk i entry in
    let rest = find_file_from n (i + 1) d junk filename entry' in
    if is_zero ret && is_zero (strncmp filename entry'.name max_filename_size) then pos i else rest

-- `rootdir_find_file`
unfoldable pub rootdir_find_file : Disk → Junk → Option Bytes → Option ℤ
rootdir_find_file d junk none = some (negsuc 0)
rootdir_find_file d junk (some filename) = do
  count ← rootdir_get_table_size d
  some (find_file_from count 0 d junk filename junk.entry)

-- `rootdir_mark_file_deleted`
abbrev pub rootdir_mark_file_deleted : Disk → ℕ → ℤ × Disk
rootdir_mark_file_deleted d index =
    cluster_write_8bit d cluster_rootdir_table (calculate_file_entry_offset index) 0

-- `rootdir_delete_file`
unfoldable pub rootdir_delete_file : Disk → Junk → ℕ → Option (ℤ × Disk)
rootdir_delete_file d junk index =
    let (ret, entry) = rootdir_get_file_entry d junk index junk.entry in
    let (marked, d') = rootdir_mark_file_deleted d index in
    if is_zero ret
    then if is_zero marked then free_clusters d' entry.data_cluster else some (negsuc 0, d')
    else some (negsuc 0, d)

-- `n` rounds of the loop of `rootdir_find_free_index` from entry `i`, with what `entry_is_used`
-- holds; past the last entry the answer is the next number.
unfoldable pub find_free_from : ℕ → ℕ → Disk → ℕ → ℕ
find_free_from zero i d entry_is_used = i
find_free_from (suc n) i d entry_is_used =
    let used =
      (cluster_read_8bit d cluster_rootdir_table (calculate_file_entry_offset i) entry_is_used).1 in
    let rest = find_free_from n (i + 1) d used in if used == 0 then i else rest

-- `rootdir_find_free_index`; the answer is never negative.
unfoldable pub rootdir_find_free_index : Disk → Junk → Option ℕ
rootdir_find_free_index d junk = do
  count ← rootdir_get_table_size d
  some (find_free_from count 0 d junk.entry_is_used)

-- The end of `rootdir_create_file`, with a cluster allocated: where the entry cannot be written,
-- the cluster is freed.
unfoldable pub create_entry : Disk → ℕ → Bytes → ℕ → Option (ℤ × Disk)
create_entry d index filename cluster = do
  set ← rootdir_set_file_entry d index (some filename) 0 cluster
  if is_zero set.0
      then some (pos index, set.1)
      else (free_clusters set.1 cluster >>= λ freed. some (set.0, freed.1))

-- `rootdir_create_file`
unfoldable pub rootdir_create_file : Disk → Junk → Option Bytes → Option (ℤ × Disk)
rootdir_create_file d junk none = some (negsuc 0, d)
rootdir_create_file d junk (some filename) = do
  index ← rootdir_find_free_index d junk
  if (fat_allocate_cluster d).0 == chain_end
      then some (disk_full, (fat_allocate_cluster d).1)
      else create_entry (fat_allocate_cluster d).1 index filename (fat_allocate_cluster d).0
