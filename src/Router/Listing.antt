-- ===== src/Router/Listing.antt =====
-- fs/filesystem_router.c, get_list_of_files, and fs/virtual_fs.c, vfs_get_list_of_files: the names
-- of a directory, one after the other in a buffer, each with its terminator.
pub mod Names
pub mod Room
pub mod Bounds
use almost_os.Prelude.{
  ℕ, zero, suc, ◌+◌, ◌-◌, ◌&&◌, Option, none, some, [], ◌∷◌, Bytes, advance, store, of_list, ltb,
  ◌==◌, if◌then◌else◌,
}
use almost_os.Prelude.Int.{ℤ, pos, negsuc, is_zero}
use almost_os.Prelude.Maybe.{◌>>=◌, option_map, option_or}
use almost_os.Util.Mem.{mem_copy}
use almost_os.Util.Strings.{strlen_unsafe}
use almost_os.TinyFs.Disk.{Disk}
use almost_os.TinyFs.Rootdir.{FileEntry, Junk, rootdir_get_file_entry, rootdir_get_table_size}
use almost_os.Router.{
  MountTable, find_mount, mount_list_count, fs_type_none, fs_type_tiny_fs, fs_type_virtual_fs,
  fs_type_test_fs,
}

-- The variables of the loops: the caller's buffer; how far the pointer `buffer` has moved in it,
-- which is `output_len` also; and `buffer_len`, what is left of the room.
pub record Listing : Type 0 where
  pub buffer : Bytes
  pub offset : ℕ
  pub left : ℕ

-- `buffer_len - 1`
abbrev pub minus_one : ℕ → ℤ
minus_one zero = negsuc 0
minus_one (suc n) = pos n

-- `from` written over `m` from offset `p` on
abbrev pub paste : Bytes → ℕ → Bytes → Bytes
paste m p from k = if ltb k p then m k else from (k - p)

-- What a round makes of the outcome of its copy: the pointer moves on by the size, and a terminator
-- goes there. Without room the size is -1, and the pointer goes back to the terminator before it; at
-- the start of the buffer there is none, and the write in front of the buffer is `none`.
abbrev pub add_copied : Listing → ℤ × Option Bytes → Option Listing
add_copied l (pos len, copied) = some (record {
  buffer =
      store (paste l.buffer l.offset (option_or copied (advance l.buffer l.offset)))
        (l.offset + len) 0;
  offset = l.offset + len + 1;
  left = l.left - (len + 1);
})
add_copied l (negsuc e, copied) =
    if ltb l.offset (e + 1)
    then none
    else some (record {
      buffer = store l.buffer (l.offset - (e + 1)) 0;
      offset = l.offset - (e + 1) + 1;
      left = l.left + e;
    })

-- What a round of either loop makes of a name.
unfoldable pub add_name : Listing → Bytes → Option Listing
add_name l name = add_copied l (
    mem_copy (some (advance l.buffer l.offset)) (minus_one l.left) (some name)
      (pos (strlen_unsafe (some name))))

-- The loop over the mount table: `n` rounds from entry `i`.
unfoldable pub list_mounts_from : ℕ → ℕ → MountTable → Listing → Option Listing
list_mounts_from zero i table l = some l
list_mounts_from (suc n) i table l =
    (if (table i).fs_type == fs_type_none then some l else add_name l (table i).directory_path)
    >>= (λ l'. list_mounts_from n (i + 1) table l')

-- The loop over the files of TinyFS: `n` rounds from entry `i`; the variable `entry` keeps what the
-- last round left in it.
unfoldable pub list_files_from : ℕ → ℕ → Disk → Junk → FileEntry → Listing → Option Listing
list_files_from zero i d junk entry l = some l
list_files_from (suc n) i d junk entry l =
    let (ret, entry') = rootdir_get_file_entry d junk i entry in
    (if is_zero ret then add_name l entry'.name else some l)
    >>= (λ l'. list_files_from n (i + 1) d junk entry' l')

-- `file1` and its like behind each other, 19 bytes with the terminator of the literal
abbrev pub vfs_names : Bytes
vfs_names = of_list (
    102 ∷ 105 ∷ 108 ∷ 101 ∷ 49 ∷ 0 ∷ 102 ∷ 105 ∷ 108 ∷ 101 ∷ 50 ∷ 0 ∷ 102 ∷ 105 ∷ 108 ∷ 101 ∷ 51 ∷ 0
    ∷ [])

-- The same with `hello.bin`, 29 bytes.
abbrev pub test_names : Bytes
test_names = of_list (
    102 ∷ 105 ∷ 108 ∷ 101 ∷ 49 ∷ 0 ∷ 102 ∷ 105 ∷ 108 ∷ 101 ∷ 50 ∷ 0 ∷ 102 ∷ 105 ∷ 108 ∷ 101 ∷ 51 ∷ 0
    ∷ 104 ∷ 101 ∷ 108 ∷ 108 ∷ 111 ∷ 46 ∷ 98 ∷ 105 ∷ 110 ∷ 0 ∷ [])

-- The copy of a fixed list of names into the buffer.
abbrev pub list_fixed : Bytes → ℕ → Bytes → ℕ → ℤ × Bytes
list_fixed names size buffer buffer_len =
    let (copied, filled) = mem_copy (some buffer) (pos buffer_len) (some names) (pos size) in
    (copied, option_or filled buffer)

-- `vfs_get_list_of_files`
abbrev pub vfs_get_list_of_files : Bytes → ℕ → ℤ × Bytes
vfs_get_list_of_files = list_fixed vfs_names 19

-- What the loops return, and the buffer then.
abbrev pub listed : Listing → ℤ × Bytes
listed l = (pos l.offset, l.buffer)

abbrev pub empty_listing : Bytes → ℕ → Listing
empty_listing buffer buffer_len = record { buffer = buffer; offset = 0; left = buffer_len }

-- The part of `get_list_of_files` that depends on the type of the file system; `fall_off` is the
-- result where the end of the function is reached.
unfoldable pub dispatch_list : ℕ → Disk → Junk → ℤ → Bytes → ℕ → Option (ℤ × Bytes)
dispatch_list fs_type d junk fall_off buffer buffer_len =
    if fs_type == fs_type_tiny_fs
    then rootdir_get_table_size d >>= (λ count.
      option_map listed
        (list_files_from count 0 d junk junk.entry (empty_listing buffer buffer_len)))
    else if fs_type == fs_type_virtual_fs
    then some (vfs_get_list_of_files buffer buffer_len)
    else if fs_type == fs_type_test_fs
    then some (list_fixed test_names 29 buffer buffer_len)
    else some (fall_off, buffer)

-- What `get_list_of_files` does with the outcome of `find_mount`.
abbrev pub list_found : MountTable → Disk → Junk → ℤ → Bytes → ℕ → Option ℕ → Option (ℤ × Bytes)
list_found table d junk fall_off buffer buffer_len none = some (negsuc 0, buffer)
list_found table d junk fall_off buffer buffer_len (some i) =
    dispatch_list (table i).fs_type d junk fall_off buffer buffer_len

-- `get_list_of_files`, with a size of the buffer that is not negative; `none` if the chain of the
-- root directory does not end, or for a write in front of the buffer.
unfoldable pub get_list_of_files :
    MountTable → Disk → Junk → ℤ → Bytes → Bytes → ℕ → Option (ℤ × Bytes)
get_list_of_files table d junk fall_off directory_path buffer buffer_len =
    if directory_path 0 == 47 && directory_path 1 == 0
    then option_map listed
        (list_mounts_from mount_list_count 0 table (empty_listing buffer buffer_len))
    else list_found table d junk fall_off buffer buffer_len (find_mount table (some directory_path))
