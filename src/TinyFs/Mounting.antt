-- ===== src/TinyFs/Mounting.antt =====
-- fs/tinyfs/code/disk_image.c, cluster_init, FAT_init and rootdir_init: a disk image as it is when it
-- has been put under the file system.
use almost_os.Prelude.{
  ℕ, ◌+◌, ◌*◌, ◌<◌, ◌≡◌, refl, ◌∙◌, true, some, Bytes, arith, ◌==◌, ◌&&◌, if◌then◌else◌, leb,
  Bool-cases, inl, inr,
}
use almost_os.TinyFs.Disk.{Disk, poke}
use almost_os.TinyFs.Cluster.{cluster_init, fat_init, fat_get_linked_cluster}
use almost_os.TinyFs.Cluster.Format.{
  IsFormatted, cell, write_direct, poke-IsFormatted, fat_get_linked_cluster_lem,
}
use almost_os.TinyFs.Rootdir.{rootdir_init}
use almost_os.TinyFs.Operations.{mount_image}

-- The disk's variables as `cluster_init` and `FAT_init` set them.
abbrev sized : Disk → Bytes → Disk
sized d image = record d {
  mounted = true;
  image = image;
  cluster_size = 100;
  cluster_count = 30;
  fat_cluster_size = 100;
  fat_cluster_count = 30;
}

sized-IsFormatted : (d : Disk) (image : Bytes) → IsFormatted (sized d image)
sized-IsFormatted d image = record {
  mounted = refl;
  size_min = omega arith;
  count_min = omega arith;
  table_fits = omega arith;
  count_max = omega arith;
  fits = omega arith;
  fat_count = refl;
}

-- Clusters 0 and 1 marked as used.
abbrev two_marked : Disk → Bytes → Disk
two_marked d image = poke (poke (sized d image) 1 0 255) 1 1 255

two_marked-IsFormatted : (d : Disk) (image : Bytes) → IsFormatted (two_marked d image)
two_marked-IsFormatted d image =
    poke-IsFormatted (poke-IsFormatted (sized-IsFormatted d image) 1 0 255) 1 1 255

-- The place of the image where the FAT has the entry of the root directory.
abbrev pub rootdir_entry : ℕ
rootdir_entry = 102

cell-two_marked :
    (d : Disk) (image : Bytes) (x o : ℕ)
    → o < 100
    → cell (two_marked d image) x o ≡ (if (x == 1) && leb o 1 then 255 else image (x * 100 + o))
cell-two_marked d image x o h = ground arith

init_lem :
    (d : Disk) (image : Bytes)
    → (cluster_init d (some image) 30 100).1
      ≡ (if image rootdir_entry == 0 then poke (two_marked d image) 1 2 255 else two_marked d image)
unfolding cluster_init fat_init
init_lem d image =
    let link : fat_get_linked_cluster (two_marked d image) 2 ≡ image rootdir_entry =
      fat_get_linked_cluster_lem (two_marked-IsFormatted d image) 2 (omega arith) (omega arith)
      ∙ cell-two_marked d image 1 2 (omega arith) in
    simp
      (
        write_direct (sized d image) 7 1 0 255 (omega arith),
        write_direct (poke (sized d image) 1 0 255) 7 1 1 255 (omega arith),
        link,
        write_direct (two_marked d image) 7 1 2 255 (omega arith),
      )
      (elim (Bool-cases (image rootdir_entry == 0)) [ inl z ↦ simp z | inr nz ↦ simp nz ])

-- The bytes of a mounted image.
abbrev pub mounted_byte : Bytes → ℕ → ℕ → ℕ
mounted_byte image x o =
    if (x == 1) && leb o 1
    then 255
    else if (x == 1) && (o == 2) && (image rootdir_entry == 0)
    then 255
    else image (x * 100 + o)

cell-marked :
    (d : Disk) (image : Bytes) (x o : ℕ)
    → o < 100
    → image rootdir_entry ≡ 0
    → cell (poke (two_marked d image) 1 2 255) x o ≡ mounted_byte image x o
cell-marked d image x o h z = ground arith

-- What the last step, the root directory's, keeps.
rooted-IsFormatted :
    {d : Disk} → IsFormatted d → (size : ℕ) → IsFormatted (record d { rootdir_cluster_size = size })
rooted-IsFormatted f size = record {
  mounted = f.mounted;
  size_min = f.size_min;
  count_min = f.count_min;
  table_fits = f.table_fits;
  count_max = f.count_max;
  fits = f.fits;
  fat_count = f.fat_count;
}

-- A disk on which the file system can work, and the bytes of the image that was given.
pub record IsMounted (d : Disk) (image : Bytes) : Type 0 where
  pub formatted : IsFormatted d
  pub cells : (x o : ℕ) → o < 100 → cell d x o ≡ mounted_byte image x o
  pub cluster_size : d.cluster_size ≡ 100
  pub cluster_count : d.cluster_count ≡ 30
  pub rootdir : d.rootdir_cluster_size ≡ 100

IsMounted-if :
    (d : Disk) (image : Bytes)
    → IsMounted
        (record (if image rootdir_entry == 0
          then poke (two_marked d image) 1 2 255
          else two_marked d image) { rootdir_cluster_size = 100 })
        image
IsMounted-if d image = elim (Bool-cases (image rootdir_entry == 0)) [
  | inl z ↦ rw z (record {
    formatted = rooted-IsFormatted (poke-IsFormatted (two_marked-IsFormatted d image) 1 2 255) 100;
    cells = λ x o h. cell-marked d image x o h (ground arith);
    cluster_size = refl;
    cluster_count = refl;
    rootdir = refl;
  })
  | inr nz ↦ rw nz (record {
    formatted = rooted-IsFormatted (two_marked-IsFormatted d image) 100;
    cells = λ x o h. ground (arith, cell-two_marked d image x o h);
    cluster_size = refl;
    cluster_count = refl;
    rootdir = refl;
  })
]

-- Whatever the image and the state before, `cluster_init` and `rootdir_init`, as `load_ramdisk`,
-- `create_disk` and `load_disk` call them, leave a formatted disk of 30 clusters of 100 bytes. Its
-- bytes are those of the image, but for the entries of the clusters 0 and 1, which are marked as
-- used, and that of the root directory, which is marked as used if it was free.
pub mount_image-IsMounted :
    (d : Disk) (image : Bytes) (size : ℕ) → IsMounted (mount_image d image size).disk image
unfolding mount_image rootdir_init
mount_image-IsMounted d image size = rw (init_lem d image) (IsMounted-if d image)
