-- ===== src/TinyFs/Operations.antt =====
-- fs/tinyfs/code/fs_operations.c and disk_image.c: the operations of the file system, and how a
-- disk image is put under them.
use almost_os.Prelude.{
  Bool, true, false, ℕ, ◌+◌, ◌*◌, Option, none, some, Bytes, if◌then◌else◌, u16,
}
use almost_os.Prelude.Int.{ℤ, pos, negsuc, is_zero}
use almost_os.Prelude.Maybe.{◌>>=◌}
use almost_os.TinyFs.Disk.{Disk, default_cluster_size, default_cluster_count}
use almost_os.TinyFs.Cluster.{cluster_init, cluster_write_data}
use almost_os.TinyFs.Rootdir.{
  Junk, rootdir_init, rootdir_find_file, rootdir_create_file, rootdir_delete_file,
  rootdir_get_file_entry, rootdir_set_file_size,
}

-- disk_image.c: whether its `s_disk_image_ptr` is set (the memory there is that of the disk), and
-- the size, above the disk's own state.
pub record Image : Type 0 where
  pub disk : Disk
  pub has_image : Bool
  pub size : ℕ

-- What `load_ramdisk`, `create_disk` and `load_disk` do with an image that they have found.
unfoldable pub mount_image : Disk → Bytes → ℕ → Image
mount_image d image size =
    let (r, d₁) = cluster_init d (some image) default_cluster_count default_cluster_size in
    let (r', d₂) = rootdir_init d₁ default_cluster_size in
    record { disk = d₂; has_image = true; size = size }

-- `load_ramdisk`; -2 is `-FS_NO_MEMORY`.
unfoldable pub load_ramdisk : Image → Option Bytes → ℤ × Image
load_ramdisk s none = (negsuc 1, s)
load_ramdisk s (some image) =
    (pos 0, mount_image s.disk image (default_cluster_count * default_cluster_size))

-- `create_disk`, with what `malloc` returns.
unfoldable pub create_disk : Image → Option Bytes → ℤ × Image
create_disk s none =
    (negsuc 1, record s { has_image = false; size = default_cluster_count * default_cluster_size })
create_disk s (some image) =
    (pos 0, mount_image s.disk image (default_cluster_count * default_cluster_size))

-- `load_disk`, with what `load_file_into_memory` finds; -3 is `-FS_NO_IMAGE_FILE`.
unfoldable pub load_disk : Image → Option (Bytes × ℕ) → ℤ × Image
load_disk s none = (negsuc 2, record s { has_image = false })
load_disk s (some (image, size)) = (pos 0, mount_image s.disk image size)

-- `fs_load_disk_image`: a new disk where no image file is found.
unfoldable pub fs_load_disk_image : Image → Option (Bytes × ℕ) → Option Bytes → ℤ × Image
fs_load_disk_image s file memory =
    let (ret, s') = load_disk s file in if is_zero ret then (ret, s') else create_disk s' memory

-- `fs_create_file`
abbrev pub fs_create_file : Disk → Junk → Option Bytes → Option (ℤ × Disk)
fs_create_file = rootdir_create_file

-- `fs_delete`
unfoldable pub fs_delete : Disk → Junk → Option Bytes → Option (ℤ × Disk)
fs_delete d junk filename = do
  found ← rootdir_find_file d junk filename
  elim found [ pos index ↦ rootdir_delete_file d junk index | negsuc e ↦ some (negsuc e, d) ]

-- `fs_open`
abbrev pub fs_open : Disk → Junk → Option Bytes → Option ℤ
fs_open = rootdir_find_file

-- `fs_write`: the bytes go behind the end of the file.
unfoldable pub fs_write : Disk → Junk → ℤ → Bytes → ℕ → ℤ × Disk
fs_write d junk (negsuc e) buffer buffer_len = (negsuc e, d)
fs_write d junk (pos handler) buffer buffer_len =
    let (ret, file) = rootdir_get_file_entry d junk handler junk.entry in
    let (written, d') = cluster_write_data d file.data_cluster file.file_size buffer buffer_len in
    if is_zero ret
    then if is_zero written
      then rootdir_set_file_size d' handler (u16 (file.file_size + buffer_len))
      else (written, d')
    else (negsuc 0, d)

-- `fs_close`
abbrev pub fs_close : ℤ → ℤ
fs_close handler = pos 0
