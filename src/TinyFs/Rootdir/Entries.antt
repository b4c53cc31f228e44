-- ===== src/TinyFs/Rootdir/Entries.antt =====
-- fs/tinyfs/code/rootdir_cluster.c: rootdir_set_file_entry and rootdir_get_file_entry.
use almost_os.Prelude.{
  ℕ, zero, suc, ◌+◌, ◌-◌, ◌*◌, ◌/◌, ◌^◌, ◌≤◌, ◌<◌, ◌≡◌, ◌≢◌, ap, ◌∙◌, true, false, some, List,
  Bytes, store, arith, ltb, leb, u8, u32, ◌==◌, ◌||◌, ◌&&◌, if◌then◌else◌, ℕ_discrete,
}
use almost_os.Prelude.Int.{pos, or}
use almost_os.Util.CString.{strlen_from, strlen}
use almost_os.TinyFs.Disk.{Disk, chain_end}
use almost_os.TinyFs.Cluster.Format.{IsFormatted}
use almost_os.TinyFs.Cluster.Chain.{IsChain, cluster_of}
use almost_os.TinyFs.Cluster.Blocks.{read_data_from_lem}
use almost_os.TinyFs.Rootdir.{
  FileEntry, Junk, write_file_entry, rootdir_set_file_entry, rootdir_get_file_entry,
  calculate_file_entry_offset,
}
use almost_os.TinyFs.Rootdir.Window.{
  Window, Window-old_bytes, old_bytes, write_byte, read_byte, store_word, write_word, read_word,
  store_bytes, write_bytes,
}

strlen_from-some :
    (fuel i k : ℕ) (s : Bytes)
    → i ≤ k
    → k < i + fuel
    → s k ≡ 0
    → ((j : ℕ) → i ≤ j → j < k → s j ≢ 0)
    → strlen_from fuel i s ≡ some k
unfolding strlen_from
strlen_from-some zero i k s low high end inner = absurd (omega arith)
strlen_from-some (suc fuel) i k s low high end inner = elim (ℕ_discrete i k) [
  | yes e ↦ let stop : (s i == 0) ≡ true = ground (arith, ap s e) in rw stop (ap some e)
  | no ne ↦
      let on : (s i == 0) ≡ false = ground (arith, inner i (omega arith) (omega arith)) in
      rw on (
        strlen_from-some fuel (i + 1) k s (omega arith) (omega arith) end
          (λ j a b. inner j (omega arith) b))
]

strlen_lem :
    (k : ℕ) (s : Bytes) → k < 2 ^ 32 → s k ≡ 0 → ((j : ℕ) → j < k → s j ≢ 0) → strlen s ≡ some k
unfolding strlen
strlen_lem k s h end inner =
    strlen_from-some (2 ^ 32) 0 k s (omega arith) (omega arith) end (λ j a b. inner j b)

-- The bytes of an entry, written over `m`.
abbrev pub entry_bytes : Bytes → Bytes → ℕ → ℕ → ℕ → Bytes
entry_bytes m filename n size cluster =
    store (store_word (store (store_bytes m 0 n filename) 12 0) 13 size) 15 cluster

write_file_entry-Window :
    {d : Disk} {cs : List ℕ} {b : ℕ} {m : Bytes} (filename : Bytes) (n size cluster : ℕ)
    → Window d 2 cs b m
    → n ≤ 13
    → ((j : ℕ) → filename j < 256)
    → cluster < 256
    → (d' : Disk) × (write_file_entry d b filename n size cluster ≡ (pos 0, d'))
      × Window d' 2 cs b (entry_bytes m filename n size cluster)
unfolding write_file_entry or
write_file_entry-Window {d} {cs} {b} {m} filename n size cluster w short byte small =
    let (d₁, e₁, w₁) = write_bytes n 0 filename w (omega arith) byte in
    let (d₂, e₂, w₂) = write_byte w₁ 12 0 (omega arith) (omega arith) in
    let (d₃, e₃, w₃) = write_word w₂ 13 size (omega arith) in
    let (d₄, e₄, w₄) = write_byte w₃ 15 cluster (omega arith) small in
    let p₂ : u32 (b + 13 - 1) ≡ b + 12 = omega (arith, w.small) in
    let p₃ : u32 (b + 13) ≡ b + 13 = omega (arith, w.small) in
    let p₄ : u32 (b + 15) ≡ b + 15 = omega (arith, w.small) in
    (d₄, simp (e₁, p₂, e₂, p₃, e₃, p₄, e₄), w₄)

get_lem :
    {d : Disk} {cs : List ℕ} {m : Bytes} (index size : ℕ) (junk : Junk) (entry : FileEntry)
    → Window d 2 cs (calculate_file_entry_offset index) m
    → m 0 ≢ 0
    → size < 65536
    → m 13 ≡ u8 (size / 256)
    → m 14 ≡ u8 size
    → rootdir_get_file_entry d junk index entry ≡ (
      pos 0,
      record {
        name = λ j. if leb 0 j && ltb j (0 + 13) then m j else entry.name j;
        data_cluster = m 15;
        file_size = size;
      },
    )
unfolding rootdir_get_file_entry or
get_lem {d} {cs} {m} index size junk entry w used small high low =
    let b = calculate_file_entry_offset index in
    let start : b + 0 ≡ b = omega arith in
    let test : (m 0 == 0) ≡ false = ground arith in
    simp (
      rw start at (w.reads 0 junk.entry_is_used (omega arith)),
      read_data_from_lem 13 0 d 2 b m entry.name (omega (arith, w.small))
          (λ j value x y. w.reads j value (omega arith)),
      read_word w 13 junk.high_val junk.low_val size (omega arith) small high low,
      read_byte w 15 entry.data_cluster (omega arith),
      test,
    )

set_lem :
    (d d' : Disk) (index len size cluster : ℕ) (filename : Bytes)
    → len ≤ 12
    → filename len ≡ 0
    → ((j : ℕ) → j < len → filename j ≢ 0)
    → cluster ≢ 0
    → cluster < chain_end
    → write_file_entry d (calculate_file_entry_offset index) filename (len + 1) size cluster
      ≡ (pos 0, d')
    → rootdir_set_file_entry d index (some filename) size cluster ≡ some (pos 0, d')
unfolding rootdir_set_file_entry
set_lem d d' index len size cluster filename short end inner ne small step =
    let valid : (cluster == 0 || cluster == chain_end) ≡ false = ground arith in
    let fits : ltb 13 (len + 1) ≡ false = ground arith in
    simp (valid, strlen_lem len filename (omega arith) end inner, fits, step)

name_lem :
    (m filename : Bytes) (other len size cluster j : ℕ)
    → len ≤ 12
    → j ≤ len
    → filename len ≡ 0
    → (if leb 0 j && ltb j (0 + 13) then entry_bytes m filename (len + 1) size cluster j else other)
      ≡ filename j
name_lem m filename other len size cluster j short h end = elim (ℕ_discrete j 12) [
  | yes e ↦
      let last : len ≡ j = omega arith in
      let zero_there : filename j ≡ 0 = rw last at end in ground arith
  | no ne ↦ ground arith
]

-- On a formatted disk, an entry of the root directory whose 16 bytes lie within the directory's
-- chain takes a file name of 1 to 12 characters, a size and a first cluster that is neither 0 nor
-- the end mark: `rootdir_set_file_entry` answers 0 and keeps the disk formatted and the chain, and
-- `rootdir_get_file_entry` then answers 0 with the same name, size and cluster.
pub rootdir_get_file_entry-rootdir_set_file_entry :
    {d : Disk} {cs : List ℕ} (index len size cluster : ℕ) (filename : Bytes) (junk : Junk)
    (entry : FileEntry)
    → IsFormatted d
    → IsChain d 2 cs
    → index * 16 + 16 ≤ 2 ^ 32
    → ((j : ℕ) → j < 16 → cluster_of d 2 cs (calculate_file_entry_offset index + j) ≢ chain_end)
    → 1 ≤ len
    → len ≤ 12
    → filename len ≡ 0
    → ((j : ℕ) → j < len → filename j ≢ 0)
    → ((j : ℕ) → filename j < 256)
    → size < 65536
    → cluster ≢ 0
    → cluster < chain_end
    → (d' : Disk) × (rootdir_set_file_entry d index (some filename) size cluster ≡ some (pos 0, d'))
      × IsFormatted d'
      × IsChain d' 2 cs
      × ((rootdir_get_file_entry d' junk index entry).0 ≡ pos 0)
      × ((rootdir_get_file_entry d' junk index entry).1.file_size ≡ size)
      × ((rootdir_get_file_entry d' junk index entry).1.data_cluster ≡ cluster)
      × ((j : ℕ) → j ≤ len → (rootdir_get_file_entry d' junk index entry).1.name j ≡ filename j)
rootdir_get_file_entry-rootdir_set_file_entry {d} {cs} index len size cluster filename junk entry f
      k bound within some_name short end inner byte word ne small =
    let b = calculate_file_entry_offset index in
    let w = Window-old_bytes b f k (omega arith) within in
    let (d', e, w') =
      write_file_entry-Window filename (len + 1) size cluster w (omega arith) byte (omega arith) in
    let first : filename 0 ≢ 0 = inner 0 (omega arith) in
    let got = get_lem index size junk entry w' (ground arith) word (ground arith) (ground arith) in
    (
      d',
      set_lem d d' index len size cluster filename short end inner ne small e,
      w'.formatted,
      w'.chain,
      ap (λ r. r.0) got,
      ap (λ r. r.1.file_size) got,
      ap (λ r. r.1.data_cluster) got,
      λ j h.
          ap (λ r. r.1.name j) got
          ∙ name_lem (old_bytes d 2 cs b) filename (entry.name j) len size cluster j short h end,
    )
