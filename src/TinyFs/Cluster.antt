-- ===== src/TinyFs/Cluster.antt =====
-- fs/tinyfs/code/cluster_operations.c and FAT_cluster.c. The two files call each other: a byte of
-- a cluster is found through the FAT, and the FAT is read and written as bytes of cluster 1. The
-- first argument of the `_at` functions bounds the depth of these calls.
pub mod Format
pub mod Chain
pub mod ReadWrite
pub mod Alloc
pub mod Grow
pub mod Extend
pub mod Keep
pub mod Append
pub mod Words
pub mod Blocks
pub mod Free
pub mod Release
use almost_os.Prelude.{
  ℕ, zero, suc, ◌+◌, ◌-◌, ◌*◌, ◌/◌, ◌%◌, Bool, true, false, not, ◌||◌, Option, none, some, Bytes,
  store, ltb, leb, ◌==◌, if◌then◌else◌, u8, u16, u32,
}
use almost_os.Prelude.Int.{ℤ, pos, negsuc, is_zero, or}
use almost_os.TinyFs.Disk.{
  Disk, cluster_fat_table, cluster_rootdir_table, chain_end, image_offset, poke,
}

-- `-FS_DISK_FULL`; -1 is `negsuc 0`.
abbrev pub disk_full : ℤ
disk_full = negsuc 3

-- `FAT_get_linked_cluster`, over the read of a byte of cluster 1 into a variable that holds 0xFF.
abbrev pub linked_by : (ℕ → ℤ × ℕ) → ℕ → ℕ
linked_by read c = if c == 0 || c == chain_end then chain_end else (read c).1

-- `for (i = 0; i < n; i++) current_cluster = FAT_get_linked_cluster(current_cluster);`
unfoldable pub walk : (ℕ → ℕ) → ℕ → ℕ → ℕ
walk link zero c = c
walk link (suc n) c = walk link n (link c)

-- `get_cluster_at_offset`; `target` is what `*target_cluster_idx` holds.
unfoldable pub get_cluster_at_offset : (ℕ → ℕ) → ℕ → ℕ → ℕ → ℕ → ℤ × ℕ
get_cluster_at_offset link cluster_size head offset target =
    if cluster_size == 0
    then (negsuc 0, target)
    else let current = walk link (offset / cluster_size) head in
      if current == chain_end then (negsuc 0, target) else (pos 0, current)

-- `cluster_read_8bit` over the links; `value` is what `*value` holds.
unfoldable pub read_by : (ℕ → ℕ) → Disk → ℕ → ℕ → ℕ → ℤ × ℕ
read_by link d head offset value =
    let (ret, target) = get_cluster_at_offset link d.cluster_size head offset head in
    if not d.mounted
    then (negsuc 0, value)
    else if leb d.cluster_size offset
    then if d.cluster_size == 0
      then (negsuc 0, value)
      else if is_zero ret
      then (pos 0, d.image (image_offset d target (offset % d.cluster_size)))
      else (ret, value)
    else (pos 0, d.image (image_offset d head offset))

unfoldable pub read_at : ℕ → Disk → ℕ → ℕ → ℕ → ℤ × ℕ
read_at zero d head offset value = (negsuc 0, value)
read_at (suc depth) d head offset value =
    read_by (linked_by (λ c. read_at depth d cluster_fat_table c chain_end)) d head offset value

-- How deep the calls may go.
abbrev pub max_depth : ℕ
max_depth = 8

abbrev pub cluster_read_8bit : Disk → ℕ → ℕ → ℕ → ℤ × ℕ
cluster_read_8bit = read_at max_depth

unfoldable pub fat_get_linked_cluster : Disk → ℕ → ℕ
fat_get_linked_cluster d = linked_by (λ c. cluster_read_8bit d cluster_fat_table c chain_end)

-- What writes a byte: the disk, a head cluster, an offset and the value.
abbrev pub Writer : Type 0
Writer = Disk → ℕ → ℕ → ℕ → ℤ × Disk

-- `FAT_allocate_cluster` over a writer: `n` rounds of its loop from `index`.
unfoldable pub allocate_from : Writer → ℕ → ℕ → Disk → ℕ × Disk
allocate_from write zero index d = (chain_end, d)
allocate_from write (suc n) index d =
    let rest = allocate_from write n (index + 1) d in
    if fat_get_linked_cluster d index == 0
    then (index, (write d cluster_fat_table index chain_end).1)
    else rest

unfoldable pub allocate_by : Writer → Disk → ℕ × Disk
allocate_by write d = allocate_from write (d.fat_cluster_count - 3) 3 d

-- The loop of `allocate_clusters_upto_offset`, with what it leaves in `current_cluster`.
unfoldable pub extend_by : Writer → ℕ → ℕ → Disk → ℤ × ℕ × Disk
extend_by write zero current d = (pos 0, current, d)
extend_by write (suc n) current d = elim (fat_get_linked_cluster d current == chain_end) [
  | false ↦ extend_by write n (fat_get_linked_cluster d current) d
  | true ↦ elim ((allocate_by write d).0 == chain_end) [
    | true ↦ (disk_full, current, (allocate_by write d).1)
    | false ↦
        extend_by write n (allocate_by write d).0
          (write (allocate_by write d).1 cluster_fat_table current (allocate_by write d).0).1
  ]
]

-- `allocate_clusters_upto_offset`; `target` is what `*target_cluster_idx` holds.
unfoldable pub allocate_upto : Writer → Disk → ℕ → ℕ → ℕ → ℤ × ℕ × Disk
allocate_upto write d head offset target =
    if d.cluster_size == 0
    then (negsuc 0, target, d)
    else let (ret, current, d') = extend_by write (offset / d.cluster_size) head d in
      (ret, if is_zero ret then current else target, d')

-- `cluster_write_8bit` over the writer of FAT entries. Unlike the read it does not test the image
-- pointer for NULL.
unfoldable pub write_by : Writer → Writer
write_by write d head offset value =
    let (found, target) =
      get_cluster_at_offset (fat_get_linked_cluster d) d.cluster_size head offset head in
    let (made, target', d') = allocate_upto write d head offset target in
    if leb d.cluster_size offset
    then if d.cluster_size == 0
      then (negsuc 0, d)
      else if is_zero found
      then (pos 0, poke d target (offset % d.cluster_size) value)
      else if is_zero made
      then (pos 0, poke d' target' (offset % d.cluster_size) value)
      else (made, d')
    else (pos 0, poke d head offset value)

unfoldable pub write_at : ℕ → Writer
write_at zero d head offset value = (negsuc 0, d)
write_at (suc depth) d head offset value = write_by (write_at depth) d head offset value

abbrev pub cluster_write_8bit : Writer
cluster_write_8bit = write_at max_depth

abbrev pub fat_set_linked_cluster : Disk → ℕ → ℕ → Disk
fat_set_linked_cluster d head next = (cluster_write_8bit d cluster_fat_table head next).1

abbrev pub fat_allocate_cluster : Disk → ℕ × Disk
fat_allocate_cluster = allocate_by cluster_write_8bit

abbrev pub fat_mark_cluster_as_used : Disk → ℕ → ℤ × Disk
fat_mark_cluster_as_used d index = cluster_write_8bit d cluster_fat_table index chain_end

abbrev pub fat_mark_cluster_as_free : Disk → ℕ → ℤ × Disk
fat_mark_cluster_as_free d index = cluster_write_8bit d cluster_fat_table index 0

-- `FAT_init`
unfoldable pub fat_init : Disk → ℕ → ℕ → ℤ × Disk
fat_init d cluster_count cluster_size =
    let sized = record d { fat_cluster_size = cluster_size; fat_cluster_count = cluster_count } in
    let d₁ = (fat_mark_cluster_as_used sized 0).1 in
    let d₂ = (fat_mark_cluster_as_used d₁ cluster_fat_table).1 in
    if fat_get_linked_cluster d₂ cluster_rootdir_table == 0
    then (pos 0, (fat_mark_cluster_as_used d₂ cluster_rootdir_table).1)
    else (pos 0, d₂)

-- `cluster_init`; a NULL image is `none`.
unfoldable pub cluster_init : Disk → Option Bytes → ℕ → ℕ → ℤ × Disk
cluster_init d image cluster_count cluster_size =
    let sized = record d {
      mounted = elim image [ none ↦ false | some m ↦ true ];
      image = elim image [ none ↦ d.image | some m ↦ m ];
      cluster_size = cluster_size;
      cluster_count = cluster_count;
    } in
    fat_init sized cluster_count cluster_size

-- `cluster_read_16bit`: `high` and `low` are what its uninitialised variables hold.
unfoldable pub cluster_read_16bit : Disk → ℕ → ℕ → ℕ → ℕ → ℤ × ℕ
cluster_read_16bit d head offset high low =
    let (ret₁, high_val) = cluster_read_8bit d head offset high in
    let (ret₂, low_val) = cluster_read_8bit d head (u32 (offset + 1)) low in
    (or ret₁ ret₂, u16 (high_val * 256 + low_val))

-- `cluster_read_data`: `n` rounds of its loop from `i`, into a buffer.
unfoldable pub read_data_from : Disk → ℕ → ℕ → ℕ → ℕ → Bytes → ℤ → ℤ × Bytes
read_data_from d head offset zero i buffer ret = (ret, buffer)
read_data_from d head offset (suc n) i buffer ret =
    let (ret', value) = cluster_read_8bit d head (u32 (offset + i)) (buffer i) in
    read_data_from d head offset n (i + 1) (store buffer i value) (or ret ret')

abbrev pub cluster_read_data : Disk → ℕ → ℕ → Bytes → ℕ → ℤ × Bytes
cluster_read_data d head offset buffer buffer_len =
    read_data_from d head offset buffer_len 0 buffer (pos 0)

-- `cluster_write_16bit`
unfoldable pub cluster_write_16bit : Disk → ℕ → ℕ → ℕ → ℤ × Disk
cluster_write_16bit d head offset value =
    let (ret₁, d₁) = cluster_write_8bit d head offset (u8 (value / 256)) in
    let (ret₂, d₂) = cluster_write_8bit d₁ head (u32 (offset + 1)) (u8 value) in (or ret₁ ret₂, d₂)

-- `cluster_write_data`: `n` rounds of its loop from `i`.
unfoldable pub write_data_from : Disk → ℕ → ℕ → ℕ → ℕ → Bytes → ℤ → ℤ × Disk
write_data_from d head offset zero i buffer ret = (ret, d)
write_data_from d head offset (suc n) i buffer ret =
    let (ret', d') = cluster_write_8bit d head (u32 (offset + i)) (buffer i) in
    write_data_from d' head offset n (i + 1) buffer (or ret ret')

abbrev pub cluster_write_data : Disk → ℕ → ℕ → Bytes → ℕ → ℤ × Disk
cluster_write_data d head offset buffer buffer_len =
    write_data_from d head offset buffer_len 0 buffer (pos 0)

-- `free_clusters`; `none` if more than `fuel` clusters are freed.
unfoldable pub free_clusters_by : ℕ → Disk → ℕ → Option (ℤ × Disk)
free_clusters_by zero d head = none
free_clusters_by (suc fuel) d head =
    let next = fat_get_linked_cluster d head in
    let d' = (fat_mark_cluster_as_free d head).1 in
    let rest = free_clusters_by fuel d' next in
    if head == 0 || head == chain_end
    then some (negsuc 0, d)
    else if next == chain_end
    then some (pos 0, d')
    else rest

-- A link is a byte, so 256 clusters are more than a chain can have.
abbrev pub chain_fuel : ℕ
chain_fuel = 256

abbrev pub free_clusters : Disk → ℕ → Option (ℤ × Disk)
free_clusters = free_clusters_by chain_fuel

-- The loop of `get_cluster_chain_size`; `none` if it goes on for more than `fuel` rounds.
unfoldable pub chain_size_from : ℕ → Disk → ℕ → ℕ → Option ℤ
chain_size_from zero d head count = none
chain_size_from (suc fuel) d head count =
    let next = fat_get_linked_cluster d head in
    let rest = chain_size_from fuel d next (count + 1) in
    if next == chain_end then some (pos (count + 1)) else rest

-- `get_cluster_chain_size`: the loop reads the table and changes nothing, so that after 256 rounds
-- it has met a cluster twice and never ends.
unfoldable pub get_cluster_chain_size : Disk → ℕ → Option ℤ
get_cluster_chain_size d head =
    if head == 0 || head == chain_end then some (negsuc 0) else chain_size_from chain_fuel d head 0
