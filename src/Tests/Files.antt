-- ===== src/Tests/Files.antt =====
-- fs/tinyfs/code on an image of six clusters of eight bytes.
use almost_os.Prelude.{
  ◌≤◌, ◌/◌, sym, ap, ◌∙◌, get_or, Bytes, zero, suc, ◌+◌, ◌<◌, ◌≢◌, ltb, ℕ, ◌≡◌, refl, true, some,
  [], ◌∷◌, of_list, arith, ◌==◌, if◌then◌else◌,
}
use almost_os.Prelude.Int.{pos}
use almost_os.TinyFs.Disk.{Disk, chain_end}
use almost_os.TinyFs.Cluster.{
  cluster_read_8bit, cluster_write_8bit, free_clusters, cluster_read_data, cluster_write_data,
}
use almost_os.TinyFs.Cluster.Format.{IsFormatted}
use almost_os.TinyFs.Cluster.Chain.{IsChain, cluster_of}
use almost_os.TinyFs.Cluster.ReadWrite.{read-write, write-other}
use almost_os.TinyFs.Cluster.Append.{Growth, write-Growth}
use almost_os.TinyFs.Cluster.Release.{Freed, free_clusters-Freed}
use almost_os.TinyFs.Rootdir.{FileEntry, Junk, rootdir_get_file_entry, rootdir_set_file_entry}
use almost_os.TinyFs.Rootdir.Entries.{rootdir_get_file_entry-rootdir_set_file_entry}
use almost_os.TinyFs.Operations.{mount_image}
use almost_os.TinyFs.Mounting.{IsMounted, mount_image-IsMounted}
use almost_os.TinyFs.Cluster.Blocks.{cluster_read_data-cluster_write_data}

-- Cluster 0, the table in cluster 1, the directory in cluster 2, and a file in clusters 3 and 4.
abbrev small : Disk
small = record {
  mounted = true;
  image = of_list (0 ∷ 0 ∷ 0 ∷ 0 ∷ 0 ∷ 0 ∷ 0 ∷ 0 ∷ 255 ∷ 255 ∷ 255 ∷ 4 ∷ 255 ∷ 0 ∷ 0 ∷ 0 ∷ []);
  cluster_size = 8;
  cluster_count = 6;
  fat_cluster_size = 8;
  fat_cluster_count = 6;
  rootdir_cluster_size = 8;
}

small-IsFormatted : IsFormatted small
small-IsFormatted = record {
  mounted = refl;
  size_min = omega arith;
  count_min = omega arith;
  table_fits = omega arith;
  count_max = omega arith;
  fits = omega arith;
  fat_count = refl;
}

file : IsChain small 3 (4 ∷ [])
file = record {
  in_range = ((omega arith, omega arith), ((omega arith, omega arith), tt));
  links = (refl, refl);
  distinct = ((λ e. omega arith, tt), (tt, tt));
}

directory : IsChain small 2 []
directory = record {
  in_range = ((omega arith, omega arith), tt);
  links = refl;
  distinct = (tt, tt);
}

read-write_example :
    let d' = (cluster_write_8bit small 3 9 77).1 in
    ((cluster_write_8bit small 3 9 77).0 ≡ pos 0)
    × IsFormatted d'
    × IsChain d' 3 (4 ∷ [])
    × ((o' value : ℕ)
        → cluster_read_8bit d' 3 o' value
          ≡ (if o' == 9 then (pos 0, 77) else cluster_read_8bit small 3 o' value))
read-write_example = read-write 9 77 small-IsFormatted file (λ e. omega arith) (omega arith)

write-other_example :
    let d' = (cluster_write_8bit small 3 9 77).1 in
    IsChain d' 2 []
    × ((o' value : ℕ) → cluster_read_8bit d' 2 o' value ≡ cluster_read_8bit small 2 o' value)
write-other_example =
    write-other 9 77 small-IsFormatted file directory
      ((λ e. omega arith, tt), ((λ e. omega arith, tt), tt)) (λ e. omega arith)

write-Growth_example : Growth small 3 (4 ∷ []) 17 88 (cluster_write_8bit small 3 17 88)
write-Growth_example = write-Growth 17 88 small-IsFormatted file refl (omega arith)

free_clusters-Freed_example :
    (d' : Disk) × (free_clusters small 3 ≡ some (pos 0, d')) × Freed small d' (3 ∷ 4 ∷ [])
free_clusters-Freed_example = free_clusters-Freed small-IsFormatted file

cluster_read_data-cluster_write_data_example :
    (d' : Disk) × (cluster_write_data small 3 6 (of_list (1 ∷ 2 ∷ 3 ∷ [])) 3 ≡ (pos 0, d'))
    × IsFormatted d'
    × IsChain d' 3 (4 ∷ [])
    × (cluster_read_data d' 3 6 (of_list []) 3
        ≡ (pos 0, λ j. if ltb j 3 then of_list (1 ∷ 2 ∷ 3 ∷ []) j else of_list [] j))
cluster_read_data-cluster_write_data_example =
    cluster_read_data-cluster_write_data 6 3 (of_list (1 ∷ 2 ∷ 3 ∷ [])) (of_list [])
      small-IsFormatted file (omega arith) within three_bytes
  where
    within : (j : ℕ) → j < 3 → cluster_of small 3 (4 ∷ []) (6 + j) ≢ chain_end
    within zero h = λ e. omega arith
    within (suc zero) h = λ e. omega arith
    within (suc (suc zero)) h = λ e. omega arith
    within (suc (suc (suc j))) h = absurd (omega arith)

    three_bytes : (j : ℕ) → of_list (1 ∷ 2 ∷ 3 ∷ []) j < 256
    three_bytes zero = omega arith
    three_bytes (suc zero) = omega arith
    three_bytes (suc (suc zero)) = omega arith
    three_bytes (suc (suc (suc j))) = omega arith

mount_image-IsMounted_example : IsMounted (mount_image small (of_list []) 3000).disk (of_list [])
mount_image-IsMounted_example = mount_image-IsMounted small (of_list []) 3000

-- A directory of one cluster of 16 bytes.
abbrev wide : Disk
wide = record {
  mounted = true;
  image =
      of_list
        (0 ∷ 0 ∷ 0 ∷ 0 ∷ 0 ∷ 0 ∷ 0 ∷ 0 ∷ 0 ∷ 0 ∷ 0 ∷ 0 ∷ 0 ∷ 0 ∷ 0 ∷ 0 ∷ 255 ∷ 255 ∷ 255 ∷ []);
  cluster_size = 16;
  cluster_count = 6;
  fat_cluster_size = 16;
  fat_cluster_count = 6;
  rootdir_cluster_size = 16;
}

wide-IsFormatted : IsFormatted wide
wide-IsFormatted = record {
  mounted = refl;
  size_min = omega arith;
  count_min = omega arith;
  table_fits = omega arith;
  count_max = omega arith;
  fits = omega arith;
  fat_count = refl;
}

wide_directory : IsChain wide 2 []
wide_directory = record {
  in_range = ((omega arith, omega arith), tt);
  links = refl;
  distinct = (tt, tt);
}

wide_within : (j : ℕ) → j < 16 → cluster_of wide 2 [] (0 + j) ≢ chain_end
wide_within j h e =
    let first : (0 + j) / 16 ≡ 0 = omega arith in
    absurd (omega (arith, sym e ∙ ap (λ n. get_or (2 ∷ []) n chain_end) first))

-- The file name `a`.
abbrev a_name : Bytes
a_name = of_list (97 ∷ [])

a_inner : (j : ℕ) → j < 1 → a_name j ≢ 0
a_inner zero h = λ e. omega arith
a_inner (suc j) h = absurd (omega arith)

a_bytes : (j : ℕ) → a_name j < 256
a_bytes zero = omega arith
a_bytes (suc j) = omega arith

abbrev no_entry : FileEntry
no_entry = record { name = of_list []; data_cluster = 0; file_size = 0 }

abbrev no_junk : Junk
no_junk = record { entry_is_used = 1; high_val = 2; low_val = 3; entry = no_entry }

rootdir_get_file_entry-rootdir_set_file_entry_example :
    (d' : Disk) × (rootdir_set_file_entry wide 0 (some a_name) 300 4 ≡ some (pos 0, d'))
    × IsFormatted d'
    × IsChain d' 2 []
    × ((rootdir_get_file_entry d' no_junk 0 no_entry).0 ≡ pos 0)
    × ((rootdir_get_file_entry d' no_junk 0 no_entry).1.file_size ≡ 300)
    × ((rootdir_get_file_entry d' no_junk 0 no_entry).1.data_cluster ≡ 4)
    × ((j : ℕ) → j ≤ 1 → (rootdir_get_file_entry d' no_junk 0 no_entry).1.name j ≡ a_name j)
rootdir_get_file_entry-rootdir_set_file_entry_example =
    rootdir_get_file_entry-rootdir_set_file_entry 0 1 300 4 a_name no_junk no_entry wide-IsFormatted
      wide_directory (omega arith) wide_within (omega arith) (omega arith) refl a_inner a_bytes
      (omega arith) (λ e. omega arith) (omega arith)
