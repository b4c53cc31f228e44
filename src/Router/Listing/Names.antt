-- ===== src/Router/Listing/Names.antt =====
-- fs/filesystem_router.c, get_list_of_files: the names in the buffer, if they fit.
use mathlib.Core.Path.{subst}
use almost_os.Prelude.{
  ℕ, zero, suc, ◌+◌, ◌-◌, ◌<◌, ◌≤◌, ◌≡◌, ◌≢◌, ◌∙◌, ◌&&◌, sym, refl, ap, true, false, Option, some,
  List, [], ◌∷◌, ◌++◌, Bytes, bytes_of, arith, ltb, ◌==◌, if◌then◌else◌, length, length-append,
  get_or, get_or-append, dec_lt,
}
use almost_os.Prelude.Int.{ℤ, pos}
use almost_os.Prelude.Maybe.{◌>>=◌, option_map}
use almost_os.Util.Strings.{strlen_unsafe}
use almost_os.TinyFs.Disk.{Disk}
use almost_os.TinyFs.Rootdir.{Junk, rootdir_get_table_size}
use almost_os.Router.{MountTable, find_mount}
use almost_os.Router.Listing.{
  Listing, add_name, get_list_of_files, dispatch_list, empty_listing, listed,
}
use almost_os.Router.Listing.Room.{
  add_names, add_name_lem, added, mount_names, file_names, list_mounts_from_lem,
  list_files_from_lem,
}

-- A name with its terminator, and the names behind each other.
abbrev pub name_bytes : Bytes → List ℕ
name_bytes name = bytes_of name 0 (strlen_unsafe (some name)) ++ (0 ∷ [])

abbrev pub listing_bytes : List Bytes → List ℕ
listing_bytes [] = []
listing_bytes (name ∷ names) = name_bytes name ++ listing_bytes names

-- `l'` is `l` with `bytes` written behind it.
record Laid (l : Listing) (bytes : List ℕ) (l' : Listing) : Type 0 where
  end : l'.offset ≡ l.offset + length bytes
  before : (k : ℕ) → k < l.offset → l'.buffer k ≡ l.buffer k
  there : (j : ℕ) → j < length bytes → l'.buffer (l.offset + j) ≡ get_or bytes j 0

length-bytes_of : (m : Bytes) (i n : ℕ) → length (bytes_of m i n) ≡ n
length-bytes_of m i zero = refl
length-bytes_of m i (suc n) = ap suc (length-bytes_of m (i + 1) n)

get_or-bytes_of : (m : Bytes) (i n j : ℕ) → j < n → get_or (bytes_of m i n) j 0 ≡ m (i + j)
get_or-bytes_of m i zero j h = absurd (omega arith)
get_or-bytes_of m i (suc n) zero h = ap m (omega arith)
get_or-bytes_of m i (suc n) (suc j) h =
    get_or-bytes_of m (i + 1) n j (omega arith) ∙ ap m (omega arith)

length-name : (name : Bytes) (n : ℕ) → length (bytes_of name 0 n ++ (0 ∷ [])) ≡ n + 1
length-name name n =
    omega (arith, length-append (bytes_of name 0 n) (0 ∷ []), length-bytes_of name 0 n)

-- What `added` leaves behind the pointer.
added-there :
    (l : Listing) (name : Bytes) (n j : ℕ)
    → j < n + 1
    → (added l name n).buffer (l.offset + j) ≡ (if ltb j n then name j else 0)
added-there l name n j h = elim (dec_lt j n) [
  | yes low ↦ let rest : l.offset + j - l.offset ≡ j = omega arith in ground (arith, ap name rest)
  | no high ↦ ground arith
]

name_byte :
    (name : Bytes) (n j : ℕ)
    → j < n + 1
    → get_or (bytes_of name 0 n ++ (0 ∷ [])) j 0 ≡ (if ltb j n then name j else 0)
name_byte name n j h = elim (dec_lt j n) [
  | yes low ↦
      let from : 0 + j ≡ j = omega arith in
      ground (
        arith,
        get_or-append (bytes_of name 0 n) (0 ∷ []) j 0,
        length-bytes_of name 0 n,
        get_or-bytes_of name 0 n j low,
        ap name from,
      )
  | no high ↦
      let last : j - n ≡ 0 = omega arith in
      ground (arith, get_or-append (bytes_of name 0 n) (0 ∷ []) j 0, length-bytes_of name 0 n, last)
]

Laid-added :
    (l : Listing) (name : Bytes) (n : ℕ) → Laid l (bytes_of name 0 n ++ (0 ∷ [])) (added l name n)
Laid-added l name n = record {
  end = omega (arith, length-name name n);
  before = λ k h. ground arith;
  there = λ j h.
      added-there l name n j (omega (arith, length-name name n))
      ∙ sym (name_byte name n j (omega (arith, length-name name n)));
}

Laid-trans :
    (l l' l'' : Listing) (bytes bytes' : List ℕ)
    → Laid l bytes l'
    → Laid l' bytes' l''
    → Laid l (bytes ++ bytes') l''
Laid-trans l l' l'' bytes bytes' first second = record {
  end = omega (arith, length-append bytes bytes', first.end, second.end);
  before = λ k h. second.before k (omega (arith, first.end)) ∙ first.before k h;
  there = λ j h. elim (dec_lt j (length bytes)) [
    | yes low ↦ ground (
      arith,
      get_or-append bytes bytes' j 0,
      first.there j low,
      second.before (l.offset + j) (omega (arith, first.end)),
    )
    | no high ↦
        let place : l.offset + j ≡ l'.offset + (j - length bytes) = omega (arith, first.end) in
        ground (
          arith,
          get_or-append bytes bytes' j 0,
          ap l''.buffer place,
          second.there (j - length bytes) (omega (arith, length-append bytes bytes')),
        )
  ];
}

add_name-fits :
    (buffer : Bytes) (offset left : ℕ) (name : Bytes)
    → strlen_unsafe (some name) + 1 ≤ left
    → add_name (record { buffer = buffer; offset = offset; left = left }) name
      ≡ some (
          added
            (record { buffer = buffer; offset = offset; left = left })
            name
            (strlen_unsafe (some name)))
add_name-fits buffer offset zero name h = absurd (omega arith)
add_name-fits buffer offset (suc left) name h =
    let whole : ltb left (strlen_unsafe (some name)) ≡ false = ground arith in
    rw whole at (add_name_lem buffer offset left name)

-- If the names fit they are all there.
add_names-Laid :
    (names : List Bytes) (l : Listing)
    → length (listing_bytes names) ≤ l.left
    → (l' : Listing) × (add_names names l ≡ some l') × Laid l (listing_bytes names) l'
add_names-Laid [] l h = (
  l,
  refl,
  record { end = omega arith; before = λ k p. refl; there = λ j p. absurd (omega arith) },
)
add_names-Laid (name ∷ names) l h =
    let n = strlen_unsafe (some name) in
    let room = length-append (name_bytes name) (listing_bytes names) in
    let l₁ = added l name n in
    let (l', run, rest) = add_names-Laid names l₁ (omega (arith, room, length-name name n)) in
    (
      l',
      ap (λ o. o >>= add_names names)
            (add_name-fits l.buffer l.offset l.left name (omega (arith, room, length-name name n)))
          ∙ run,
      Laid-trans l l₁ l' (name_bytes name) (listing_bytes names) (Laid-added l name n) rest,
    )

-- The list of names stands in the buffer, and its length is the result.
abbrev pub Lists : List Bytes → Option (ℤ × Bytes) → Type 0
Lists names r =
    (b : Bytes) × (r ≡ some (pos (length (listing_bytes names)), b))
    × ((j : ℕ) → j < length (listing_bytes names) → b j ≡ get_or (listing_bytes names) j 0)

add_names-Lists :
    (names : List Bytes) (buffer : Bytes) (buffer_len : ℕ)
    → length (listing_bytes names) ≤ buffer_len
    → Lists names (option_map listed (add_names names (empty_listing buffer buffer_len)))
add_names-Lists names buffer buffer_len h =
    let (l', run, laid) = add_names-Laid names (empty_listing buffer buffer_len) h in
    (
      l'.buffer,
      ap (option_map listed) run ∙ ap (λ n. some (pos n, l'.buffer)) (omega (arith, laid.end)),
      λ j p. ap l'.buffer (omega arith) ∙ laid.there j p,
    )

-- The list of the directory `/` is that of the paths of all the mounts in use, in the order of the
-- table, each followed by a terminator, if the buffer has room for them: the answer is its length.
pub get_list_of_files-mounts :
    (table : MountTable) (d : Disk) (junk : Junk) (fall_off : ℤ) (path buffer : Bytes)
    (buffer_len : ℕ)
    → path 0 ≡ 47
    → path 1 ≡ 0
    → length (listing_bytes (mount_names 8 0 table)) ≤ buffer_len
    → Lists (mount_names 8 0 table) (get_list_of_files table d junk fall_off path buffer buffer_len)
unfolding get_list_of_files
get_list_of_files-mounts table d junk fall_off path buffer buffer_len first second fits =
    let slash : (path 0 == 47) ≡ true = ground arith in
    let end : (path 1 == 0) ≡ true = ground arith in
    rw (slash, end)
      (subst (λ o. Lists (mount_names 8 0 table) (option_map listed o))
        (sym (list_mounts_from_lem 8 0 table (empty_listing buffer buffer_len)))
        (add_names-Lists (mount_names 8 0 table) buffer buffer_len fits))

-- The list of a directory of a mount of TinyFS is that of the names of all the files in use, in the
-- order of the root directory, each followed by a terminator, if the chain of the root directory
-- ends and the buffer has room for them: the answer is its length.
pub get_list_of_files-names :
    (table : MountTable) (d : Disk) (junk : Junk) (fall_off : ℤ) (path buffer : Bytes)
    (buffer_len i count : ℕ)
    → path 1 ≢ 0
    → find_mount table (some path) ≡ some i
    → (table i).fs_type ≡ 1
    → rootdir_get_table_size d ≡ some count
    → length (listing_bytes (file_names count 0 d junk junk.entry)) ≤ buffer_len
    → Lists
        (file_names count 0 d junk junk.entry)
        (get_list_of_files table d junk fall_off path buffer buffer_len)
unfolding get_list_of_files dispatch_list
get_list_of_files-names table d junk fall_off path buffer buffer_len i count inner mount type size
      fits =
    let names = file_names count 0 d junk junk.entry in
    let not_root : (path 0 == 47 && path 1 == 0) ≡ false = ground arith in
    let tiny : ((table i).fs_type == 1) ≡ true = ground arith in
    rw (not_root, mount, tiny, size)
      (subst (λ o. Lists names (option_map listed o))
        (sym (list_files_from_lem count 0 d junk junk.entry (empty_listing buffer buffer_len)))
        (add_names-Lists names buffer buffer_len fits))
