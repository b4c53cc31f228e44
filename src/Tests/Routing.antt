-- ===== src/Tests/Routing.antt =====
-- fs/filesystem_router.c on the paths of the kernel's mounts.
use almost_os.Prelude.{zero, suc, some, [], ◌∷◌, Bytes, of_list, arith}
use almost_os.Router.{MountTable, mount_fs, find_mount}
use almost_os.Router.Lookup.{Lookup, find_mount-Lookup}
use almost_os.Router.Mounts.{Mounting, mount_fs-Mounting}

-- `/mnt/a`
abbrev mnt_a : Bytes
mnt_a = of_list (47 ∷ 109 ∷ 110 ∷ 116 ∷ 47 ∷ 97 ∷ [])

abbrev no_mounts : MountTable
no_mounts i = record { fs_type = 0; directory_path = of_list [] }

mount_fs-Mounting_example : Mounting no_mounts 1 mnt_a (mount_fs no_mounts 1 (some mnt_a))
mount_fs-Mounting_example = mount_fs-Mounting no_mounts 1 mnt_a (λ e. omega arith)

abbrev one_mount : MountTable
one_mount zero = record { fs_type = 1; directory_path = mnt_a }
one_mount (suc i) = record { fs_type = 0; directory_path = of_list [] }

find_mount-Lookup_example : Lookup one_mount mnt_a (find_mount one_mount (some mnt_a))
find_mount-Lookup_example = find_mount-Lookup one_mount mnt_a
