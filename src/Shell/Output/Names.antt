-- ===== src/Shell/Output/Names.antt =====
-- shell/cmd_ls.c over fs/filesystem_router.c: `ls` shows the names of the files.
use mathlib.Core.Path.{subst}
use almost_os.Prelude.{
  ℕ, suc, ◌+◌, ◌≤◌, ◌<◌, ◌≡◌, ◌≢◌, ◌∙◌, refl, ap, ap₂, some, List, [], ◌∷◌, Bytes, bytes_of, map,
  arith, length, get_or,
}
use almost_os.Prelude.Int.{ℤ, pos}
use almost_os.TinyFs.Disk.{Disk}
use almost_os.TinyFs.Rootdir.{Junk, rootdir_get_table_size}
use almost_os.Router.{MountTable, find_mount}
use almost_os.Router.Listing.{get_list_of_files}
use almost_os.Router.Listing.Room.{file_names}
use almost_os.Router.Listing.Names.{listing_bytes, get_list_of_files-names}
use almost_os.Stdio.Console.{Console}
use almost_os.Stdio.Console.Windows.{IsReady}
use almost_os.Shell.Output.{show_names}
use almost_os.Shell.Output.Shown.{all_bytes, line_end, Shows, show_names-Shows}

bytes_of-same :
    (bytes : List ℕ) (i : ℕ) (b : Bytes)
    → ((j : ℕ) → j < length bytes → b (i + j) ≡ get_or bytes j 0)
    → bytes_of b i (length bytes) ≡ bytes
bytes_of-same [] i b h = refl
bytes_of-same (x ∷ xs) i b h =
    ap₂ (λ y ys. y ∷ ys) (ap b (omega arith) ∙ h 0 (omega arith))
      (bytes_of-same xs (i + 1) b (λ j p. ap b (omega arith) ∙ h (suc j) (omega arith)))

-- The list of a mount of TinyFS and the loop of `ls` over it, with the windows of the kernel: if the
-- chain of the root directory ends and the buffer has room for the names, the loop comes to an end,
-- and the names of the files in use have gone to the serial port, in the order of the directory and
-- one to a line. The windows and bounds of both terminals hold after it, and the log's terminal and
-- the screen from line 18 on are as they were.
pub show_names-get_list_of_files :
    (table : MountTable) (d : Disk) (junk : Junk) (fall_off : ℤ) (path buffer : Bytes)
    (buffer_len i count : ℕ) (c : Console)
    → path 1 ≢ 0
    → find_mount table (some path) ≡ some i
    → (table i).fs_type ≡ 1
    → rootdir_get_table_size d ≡ some count
    → length (listing_bytes (file_names count 0 d junk junk.entry)) ≤ buffer_len
    → IsReady c
    → (n : ℕ) × (filled : Bytes) × (get_list_of_files table d junk fall_off path buffer buffer_len
        ≡ some (pos n, filled))
      × Shows c
          (all_bytes (map line_end (listing_bytes (file_names count 0 d junk junk.entry))))
          (show_names n 0 c filled)
show_names-get_list_of_files table d junk fall_off path buffer buffer_len i count c inner mount type
      size fits ready =
    let names = file_names count 0 d junk junk.entry in
    let (filled, run, there) =
      get_list_of_files-names table d junk fall_off path buffer buffer_len i count inner mount type
        size fits in
    let n = length (listing_bytes names) in
    (
      n,
      filled,
      run,
      subst (λ bytes. Shows c (all_bytes (map line_end bytes)) (show_names n 0 c filled))
          (bytes_of-same (listing_bytes names) 0 filled
            (λ j p. ap filled (omega arith) ∙ there j p))
          (show_names-Shows n 0 c filled ready),
    )
