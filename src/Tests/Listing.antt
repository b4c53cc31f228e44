-- ===== src/Tests/Listing.antt =====
-- fs/filesystem_router.c, get_list_of_files on a disk of four clusters of sixteen bytes with the
-- file `ab`, mounted as `/mnt`, and a test file system as `/test`.
use almost_os.Prelude.{
  ℕ, zero, suc, ◌<◌, ◌≤◌, ◌≡◌, map, length, refl, true, Option, some, [], ◌∷◌, Bytes, of_list,
  arith,
}
use almost_os.Prelude.Int.{pos}
use almost_os.TinyFs.Disk.{Disk}
use almost_os.TinyFs.Rootdir.{Junk, rootdir_get_table_size, rootdir_get_file_entry}
use almost_os.Router.{
  MountTable, find_mount, find_mount_from, get_first_dir_in_path, first_dir_from,
}
use almost_os.Util.Strings.{strlen_unsafe, limited_from}
use almost_os.Util.CString.{strncmp_from}
use almost_os.TinyFs.Cluster.{
  get_cluster_chain_size, chain_size_from, fat_get_linked_cluster, read_at, read_by, read_data_from,
  cluster_read_16bit, get_cluster_at_offset, walk,
}
use almost_os.Router.Listing.{get_list_of_files}
use almost_os.Shell.Output.{show_names}
use almost_os.Shell.Output.Shown.{all_bytes, line_end, Shows}
use almost_os.Shell.Output.Names.{show_names-get_list_of_files}
use almost_os.Tests.Consoles.{two_windows, two_windows-IsReady}
use almost_os.Router.Listing.Room.{file_names}
use almost_os.Router.Listing.Bounds.{Answer, get_list_of_files_bounds}
use almost_os.Router.Listing.Names.{
  Lists, listing_bytes, get_list_of_files-mounts, get_list_of_files-names,
}

abbrev disk : Disk
disk = record {
  mounted = true;
  image = of_list (
      0 ∷ 0 ∷ 0 ∷ 0 ∷ 0 ∷ 0 ∷ 0 ∷ 0 ∷ 0 ∷ 0 ∷ 0 ∷ 0 ∷ 0 ∷ 0 ∷ 0 ∷ 0 ∷ 255 ∷ 255 ∷ 255 ∷ 255 ∷ 0 ∷ 0
      ∷ 0 ∷ 0 ∷ 0 ∷ 0 ∷ 0 ∷ 0 ∷ 0 ∷ 0 ∷ 0 ∷ 0 ∷ 97 ∷ 98 ∷ 0 ∷ 0 ∷ 0 ∷ 0 ∷ 0 ∷ 0 ∷ 0 ∷ 0 ∷ 0 ∷ 0 ∷ 0
      ∷ 0 ∷ 5 ∷ 3 ∷ []);
  cluster_size = 16;
  cluster_count = 4;
  fat_cluster_size = 16;
  fat_cluster_count = 4;
  rootdir_cluster_size = 16;
}

abbrev zeros : Junk
zeros = record {
  entry_is_used = 0;
  high_val = 0;
  low_val = 0;
  entry = record { name = of_list []; data_cluster = 0; file_size = 0 };
}

-- `/`, `/mnt` and `/test`
abbrev root : Bytes
root = of_list (47 ∷ [])

abbrev mnt : Bytes
mnt = of_list (47 ∷ 109 ∷ 110 ∷ 116 ∷ [])

abbrev test_path : Bytes
test_path = of_list (47 ∷ 116 ∷ 101 ∷ 115 ∷ 116 ∷ [])

abbrev mounts : MountTable
mounts zero = record { fs_type = 1; directory_path = mnt }
mounts (suc zero) = record { fs_type = 3; directory_path = test_path }
mounts (suc (suc i)) = record { fs_type = 0; directory_path = of_list [] }

types_known : (i : ℕ) → i < 8 → (mounts i).fs_type ≤ 3
types_known zero h = omega arith
types_known (suc zero) h = omega arith
types_known (suc (suc i)) h = omega arith

one_entry : rootdir_get_table_size disk ≡ some 1
unfolding rootdir_get_table_size get_cluster_chain_size chain_size_from fat_get_linked_cluster
    read_at read_by
one_entry = refl

found : find_mount mounts (some mnt) ≡ some 0
unfolding find_mount find_mount_from get_first_dir_in_path strlen_unsafe limited_from first_dir_from
    strncmp_from
found = refl

-- `ab` and its terminator
listing_size : length (listing_bytes (file_names 1 0 disk zeros zeros.entry)) ≡ 3
unfolding rootdir_get_file_entry read_data_from cluster_read_16bit get_cluster_at_offset walk
    almost_os.Prelude.Int.or strlen_unsafe limited_from read_at read_by
listing_size = refl

-- Four bytes have no room for both paths.
get_list_of_files_bounds_example :
    Answer 4 root (get_list_of_files mounts disk zeros (pos 0) root root 4)
get_list_of_files_bounds_example =
    get_list_of_files_bounds mounts disk zeros (pos 0) root root 4 1 (omega arith) types_known
      one_entry

get_list_of_files-mounts_example :
    Lists (mnt ∷ test_path ∷ []) (get_list_of_files mounts disk zeros (pos 0) root root 64)
unfolding strlen_unsafe limited_from
get_list_of_files-mounts_example =
    get_list_of_files-mounts mounts disk zeros (pos 0) root root 64 refl refl (omega arith)

get_list_of_files-names_example :
    Lists
      (file_names 1 0 disk zeros zeros.entry)
      (get_list_of_files mounts disk zeros (pos 0) mnt root 64)
get_list_of_files-names_example =
    get_list_of_files-names mounts disk zeros (pos 0) mnt root 64 0 1 (λ e. omega arith) found refl
      one_entry (omega (arith, listing_size))

show_names-get_list_of_files_example :
    (n : ℕ) × (filled : Bytes) × (get_list_of_files mounts disk zeros (pos 0) mnt root 64
      ≡ some (pos n, filled))
    × Shows two_windows
        (all_bytes (map line_end (listing_bytes (file_names 1 0 disk zeros zeros.entry))))
        (show_names n 0 two_windows filled)
show_names-get_list_of_files_example =
    show_names-get_list_of_files mounts disk zeros (pos 0) mnt root 64 0 1 two_windows
      (λ e. omega arith) found refl one_entry (omega (arith, listing_size)) two_windows-IsReady
