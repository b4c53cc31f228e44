-- ===== src/Router.antt =====
-- fs/filesystem_router.c and fs/virtual_fs.c: the mount table, and reading a file through it. A
-- NULL pointer is `none` where the code tests for it.
pub mod Paths
pub mod Mounts
pub mod Lookup
pub mod Listing
use almost_os.Prelude.{
  ℕ, zero, suc, ◌+◌, ◌-◌, ◌||◌, Bool, true, false, Option, none, some, List, [], ◌∷◌, Bytes, store,
  of_list, ltb, ◌==◌, if◌then◌else◌,
}
use almost_os.Prelude.Int.{ℤ, pos, negsuc, is_zero, is_negative, int_lt}
use almost_os.Prelude.Maybe.{◌>>=◌, option_map, option_or}
use almost_os.Util.Mem.{mem_copy}
use almost_os.Util.Strings.{strlen_unsafe}
use almost_os.Util.CString.{strncmp}
use almost_os.TinyFs.Disk.{Disk}
use almost_os.TinyFs.Cluster.{cluster_read_8bit}
use almost_os.TinyFs.Rootdir.{FileEntry, Junk, rootdir_find_file, rootdir_get_file_entry}

abbrev pub fs_type_none : ℕ
fs_type_none = 0

abbrev pub fs_type_tiny_fs : ℕ
fs_type_tiny_fs = 1

abbrev pub fs_type_virtual_fs : ℕ
fs_type_virtual_fs = 2

abbrev pub fs_type_test_fs : ℕ
fs_type_test_fs = 3

-- `struct mount_table_entry`
pub record MountTableEntry : Type 0 where
  pub fs_type : ℕ
  pub directory_path : Bytes

abbrev pub MountTable : Type 0
MountTable = ℕ → MountTableEntry

abbrev pub mount_list_count : ℕ
mount_list_count = 8

-- `sizeof mount_table[i].directory_path`
abbrev pub directory_path_size : ℕ
directory_path_size = 64

-- The entry that `mount_fs` fills.
unfoldable pub mounted_entry : MountTableEntry → ℕ → Bytes → MountTableEntry
mounted_entry entry fs_type directory_path =
    let (size, copied) =
      mem_copy (some entry.directory_path) (pos directory_path_size) (some directory_path)
        (pos (strlen_unsafe (some directory_path))) in
    record {
      fs_type = fs_type;
      directory_path = store (option_or copied entry.directory_path) (directory_path_size - 1) 0;
    }

-- The loop of `mount_fs`: `n` rounds from entry `i`.
unfoldable pub mount_from : ℕ → ℕ → MountTable → ℕ → Bytes → ℤ × MountTable
mount_from zero i table fs_type directory_path = (negsuc 0, table)
mount_from (suc n) i table fs_type directory_path =
    let rest = mount_from n (i + 1) table fs_type directory_path in
    if (table i).fs_type == fs_type_none
    then (pos i, λ j. if j == i then mounted_entry (table i) fs_type directory_path else table j)
    else rest

-- `mount_fs`
unfoldable pub mount_fs : MountTable → ℕ → Option Bytes → ℤ × MountTable
mount_fs table fs_type none = (negsuc 0, table)
mount_fs table fs_type (some directory_path) =
    if fs_type == fs_type_none
    then (negsuc 0, table)
    else mount_from mount_list_count 0 table fs_type directory_path

-- The loop of `get_first_dir_in_path` from character `i`, with `n` characters of the path and
-- `left` bytes of the buffer left.
unfoldable pub first_dir_from : ℕ → ℕ → Bytes → Bytes → ℕ → ℤ × Bytes
first_dir_from zero i dir_path output_buf left = (pos 0, store output_buf i 0)
first_dir_from (suc n) i dir_path output_buf left =
    let copied = store output_buf i (dir_path i) in
    let rest = first_dir_from n (i + 1) dir_path copied (left - 1) in
    if dir_path i == 47
    then (pos 0, store output_buf i 0)
    else if left == 1
    then (negsuc 0, copied)
    else rest

-- `get_first_dir_in_path`, with the buffer after it; `output_buf` is there.
unfoldable pub get_first_dir_in_path : Option Bytes → Bytes → ℕ → ℤ × Bytes
get_first_dir_in_path none output_buf output_buf_len = (negsuc 0, output_buf)
get_first_dir_in_path (some dir_path) output_buf output_buf_len =
    let path_len = strlen_unsafe (some dir_path) in
    if ltb path_len 2
    then (negsuc 0, output_buf)
    else if output_buf_len == 0
    then (negsuc 0, output_buf)
    else if dir_path 0 == 47
    then first_dir_from (path_len - 1) 0 (λ i. dir_path (1 + i)) output_buf output_buf_len
    else first_dir_from path_len 0 dir_path output_buf output_buf_len

-- The names that `find_mount` compares, in buffers of 32 zeros.
abbrev pub first_dir : Bytes → ℤ × Bytes
first_dir path = get_first_dir_in_path (some path) (of_list []) 32

-- The loop of `find_mount`: `n` rounds from entry `i`. The test for an error is `< -1`, as in the
-- code.
unfoldable pub find_mount_from : ℕ → ℕ → MountTable → Bytes → Option ℕ
find_mount_from zero i table dir_path = none
find_mount_from (suc n) i table dir_path =
    let rest = find_mount_from n (i + 1) table dir_path in
    let (input_ret, input_dir_name) = first_dir dir_path in
    let (mount_ret, mount_dir_name) = first_dir (table i).directory_path in
    if (table i).fs_type == fs_type_none
    then rest
    else if int_lt input_ret (negsuc 0) || int_lt mount_ret (negsuc 0)
    then none
    else if is_zero (strncmp input_dir_name mount_dir_name 32)
    then some i
    else rest

-- `find_mount`: the index, or `none` for -1.
unfoldable pub find_mount : MountTable → Option Bytes → Option ℕ
find_mount table none = none
find_mount table (some dir_path) = find_mount_from mount_list_count 0 table dir_path

-- `vfs_read_file` and the test file system of `read_file`: the first name of the list that the path
-- equals in 30 characters, with its content and size.
unfoldable pub read_fixed : List (Bytes × Bytes × ℕ) → Bytes → Bytes → ℤ → ℤ × Bytes
read_fixed [] file_path buffer buffer_len = (negsuc 0, buffer)
read_fixed ((name, content, size) ∷ files) file_path buffer buffer_len =
    let rest = read_fixed files file_path buffer buffer_len in
    let (copied, filled) = mem_copy (some buffer) buffer_len (some content) (pos size) in
    if is_zero (strncmp file_path name 30) then (copied, option_or filled buffer) else rest

-- `file1`, `file2` and `file3`; the digit's character is the argument.
abbrev pub file_name : ℕ → Bytes
file_name digit = of_list (102 ∷ 105 ∷ 108 ∷ 101 ∷ digit ∷ [])

-- `VFS Hardcoded file1` and its like, 20 bytes with the terminator.
abbrev pub vfs_content : ℕ → Bytes
vfs_content digit = of_list (
    86 ∷ 70 ∷ 83 ∷ 32 ∷ 72 ∷ 97 ∷ 114 ∷ 100 ∷ 99 ∷ 111 ∷ 100 ∷ 101 ∷ 100 ∷ 32 ∷ 102 ∷ 105 ∷ 108
    ∷ 101 ∷ digit ∷ [])

-- `vfs_read_file`
abbrev pub vfs_read_file : Bytes → Bytes → ℤ → ℤ × Bytes
vfs_read_file = read_fixed (
    (file_name 49, vfs_content 49, 20)
    ∷ (file_name 50, vfs_content 50, 20)
    ∷ (file_name 51, vfs_content 51, 20)
    ∷ [])

-- The loop of `read_file` over a TinyFS file: `n` bytes from offset `i`. `byte` is what its
-- uninitialised variable holds. The size of the buffer is not looked at.
unfoldable pub read_bytes_from : ℕ → ℕ → Disk → ℕ → ℕ → Bytes → Bytes
read_bytes_from zero i d data_cluster byte buffer = buffer
read_bytes_from (suc n) i d data_cluster byte buffer =
    read_bytes_from n (i + 1) d data_cluster byte
      (store buffer i (cluster_read_8bit d data_cluster i byte).1)

-- `read_file` on TinyFS, given the path within it.
unfoldable pub read_tiny_fs : Disk → Junk → ℕ → Bytes → Bytes → Option (ℤ × Bytes)
read_tiny_fs d junk byte file_path buffer =
    option_map
      (λ index. elim index [
        | negsuc e ↦ (negsuc 0, buffer)
        | pos i ↦
            let (ret, entry) = rootdir_get_file_entry d junk i junk.entry in
            if is_zero ret
            then (
              pos entry.file_size,
              read_bytes_from entry.file_size 0 d entry.data_cluster byte buffer,
            )
            else (negsuc 0, buffer)
      ])
      (rootdir_find_file d junk (some file_path))

-- `Hardcoded file1` and its like, 16 bytes with the terminator.
abbrev pub test_content : ℕ → Bytes
test_content digit =
    of_list
      (72 ∷ 97 ∷ 114 ∷ 100 ∷ 99 ∷ 111 ∷ 100 ∷ 101 ∷ 100 ∷ 32 ∷ 102 ∷ 105 ∷ 108 ∷ 101 ∷ digit ∷ [])

-- `hello.bin`
abbrev pub hello_name : Bytes
hello_name = of_list (104 ∷ 101 ∷ 108 ∷ 108 ∷ 111 ∷ 46 ∷ 98 ∷ 105 ∷ 110 ∷ [])

-- The test file system of `read_file`, with the user-space program that the build embeds.
abbrev pub read_test_fs : Bytes → ℕ → Bytes → Bytes → ℤ → ℤ × Bytes
read_test_fs program program_len = read_fixed (
    (file_name 49, test_content 49, 16)
    ∷ (file_name 50, test_content 50, 16)
    ∷ (file_name 51, test_content 51, 16)
    ∷ (hello_name, program, program_len)
    ∷ [])

-- The part of `read_file` that depends on the type of the file system. A type that is none of the
-- three falls off the end of the function, whose result is then `fall_off`.
unfoldable pub dispatch_read :
    ℕ → Disk → Junk → ℕ → Bytes → ℕ → ℤ → Bytes → Bytes → ℤ → Option (ℤ × Bytes)
dispatch_read fs_type d junk byte program program_len fall_off file_path buffer buffer_len =
    if fs_type == fs_type_tiny_fs
    then read_tiny_fs d junk byte file_path buffer
    else if fs_type == fs_type_virtual_fs
    then some (vfs_read_file file_path buffer buffer_len)
    else if fs_type == fs_type_test_fs
    then some (read_test_fs program program_len file_path buffer buffer_len)
    else some (fall_off, buffer)

-- The path behind the mount directory, `file_path + strlen_unsafe(mount_path) + 1`.
abbrev pub relative_path : MountTableEntry → Bytes → Bytes
relative_path entry file_path i = file_path (strlen_unsafe (some entry.directory_path) + 1 + i)

-- `read_file`; `none` if a loop of TinyFS does not end.
unfoldable pub read_file :
    MountTable → Disk → Junk → ℕ → Bytes → ℕ → ℤ → Bytes → Bytes → ℤ → Option (ℤ × Bytes)
read_file table d junk byte program program_len fall_off file_path buffer buffer_len =
    elim (find_mount table (some file_path)) [
      | none ↦ some (negsuc 0, buffer)
      | some i ↦
          dispatch_read (table i).fs_type d junk byte program program_len fall_off
            (relative_path (table i) file_path) buffer buffer_len
    ]
