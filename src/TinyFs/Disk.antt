-- ===== src/TinyFs/Disk.antt =====
-- The state of fs/tinyfs/code: the disk image and the sizes that its files keep copies of.
use almost_os.Prelude.{ℕ, ◌+◌, ◌*◌, Bool, Bytes, store, u8, u32}

-- The static variables of cluster_operations.c, FAT_cluster.c and rootdir_cluster.c.
pub record Disk : Type 0 where
  -- `s_disk_image_ptr != NULL`, and the memory at `s_disk_image_ptr`
  pub mounted : Bool
  pub image : Bytes
  pub cluster_size : ℕ
  pub cluster_count : ℕ
  pub fat_cluster_size : ℕ
  pub fat_cluster_count : ℕ
  pub rootdir_cluster_size : ℕ

abbrev pub cluster_fat_table : ℕ
cluster_fat_table = 1

abbrev pub cluster_rootdir_table : ℕ
cluster_rootdir_table = 2

abbrev pub default_cluster_size : ℕ
default_cluster_size = 100

abbrev pub default_cluster_count : ℕ
default_cluster_count = 30

-- The end of a chain, 0xFF.
abbrev pub chain_end : ℕ
chain_end = 255

-- `calculate_image_offset(cluster_idx) + offset`
abbrev pub image_offset : Disk → ℕ → ℕ → ℕ
image_offset d cluster offset = u32 (u32 (cluster * d.cluster_size) + offset)

-- `s_disk_image_ptr[image_offset] = value`
abbrev pub poke : Disk → ℕ → ℕ → ℕ → Disk
poke d cluster offset value = record d {
  image = store d.image (image_offset d cluster offset) (u8 value);
}
