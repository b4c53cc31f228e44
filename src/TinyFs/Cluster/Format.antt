-- ===== src/TinyFs/Cluster/Format.antt =====
-- A formatted disk of fs/tinyfs: where its bytes lie, and what one read or write of a byte within
-- a cluster does.
use almost_os.Prelude.{
  ℕ, suc, ◌+◌, ◌*◌, ◌^◌, ◌≤◌, ◌<◌, ◌≡◌, ap, true, false, arith, u8, leb, ◌==◌, store-ne, store_self,
  dec_lt, ◌||◌,
}
use almost_os.Prelude.Int.{pos}
use almost_os.TinyFs.Disk.{Disk, chain_end, image_offset, poke}
use almost_os.TinyFs.Cluster.{
  read_at, read_by, write_at, write_by, fat_get_linked_cluster, linked_by,
}

-- The image is there, the FAT fits in its cluster, cluster numbers are bytes below the end mark,
-- and the image fits in the address space.
pub record IsFormatted (d : Disk) : Type 0 where
  pub mounted : d.mounted ≡ true
  pub size_min : 2 ≤ d.cluster_size
  pub count_min : 3 ≤ d.cluster_count
  pub table_fits : d.cluster_count ≤ d.cluster_size
  pub count_max : d.cluster_count < chain_end
  pub fits : d.cluster_count * d.cluster_size ≤ 2 ^ 32
  pub fat_count : d.fat_cluster_count ≡ d.cluster_count

-- The byte of a cluster at an offset.
abbrev pub cell : Disk → ℕ → ℕ → ℕ
cell d c o = d.image (c * d.cluster_size + o)

-- The FAT entry of a cluster.
abbrev pub fat : Disk → ℕ → ℕ
fat d c = cell d 1 c

pub cell-lt : (c o n size : ℕ) → c < n → o < size → c * size + o < n * size
cell-lt c o n size h k = grind arith

pub image_offset_lem :
    {d : Disk} (f : IsFormatted d) (c o : ℕ)
    → c < d.cluster_count
    → o < d.cluster_size
    → image_offset d c o ≡ c * d.cluster_size + o
image_offset_lem {d} f c o h k =
    omega (arith, f.fits, cell-lt c o d.cluster_count d.cluster_size h k)

-- A lower cluster lies wholly below a higher one.
place-lt : (c o c' o' size : ℕ) → o < size → c < c' → c * size + o < c' * size + o'
place-lt c o c' o' size h lt = omega (arith, cell-lt c o c' size lt h)

-- Two places of the image are one only if cluster and offset agree.
pub place-injective :
    (c o c' o' size : ℕ)
    → o < size
    → o' < size
    → c * size + o ≡ c' * size + o'
    → (c ≡ c') × (o ≡ o')
place-injective c o c' o' size h k e = elim (dec_lt c c') [
  | yes lt ↦ absurd (omega (arith, place-lt c o c' o' size h lt))
  | no ge ↦ elim (dec_lt c' c) [
    | yes lt ↦ absurd (omega (arith, place-lt c' o' c o size k lt))
    | no ge' ↦ let same : c ≡ c' = omega arith in (same, omega (arith, ap (λ t. t * size) same))
  ]
]

pub read_direct :
    {d : Disk} (f : IsFormatted d) (depth c o value : ℕ)
    → c < d.cluster_count
    → o < d.cluster_size
    → read_at (suc depth) d c o value ≡ (pos 0, cell d c o)
unfolding read_at read_by
read_direct {d} f depth c o value h k =
    let inside : leb d.cluster_size o ≡ false = ground arith in
    simp (f.mounted, inside) (ap (λ t. (pos 0, d.image t)) (image_offset_lem f c o h k))

pub write_direct :
    (d : Disk) (depth c o value : ℕ)
    → o < d.cluster_size
    → write_at (suc depth) d c o value ≡ (pos 0, poke d c o value)
unfolding write_at write_by
write_direct d depth c o value k =
    let inside : leb d.cluster_size o ≡ false = ground arith in simp inside

-- The link of a cluster is its entry in the table, for the code's reads of any depth.
pub linked_by_lem :
    {d : Disk} (f : IsFormatted d) (depth c : ℕ)
    → 1 ≤ c
    → c < d.cluster_count
    → linked_by (λ k. read_at (suc depth) d 1 k chain_end) c ≡ fat d c
linked_by_lem {d} f depth c one lt =
    let link : (c == 0 || c == chain_end) ≡ false = ground (arith, f.count_max) in
    rw (
      link,
      read_direct f depth 1 c chain_end (omega (arith, f.count_min)) (omega (arith, f.table_fits)),
    )

pub fat_get_linked_cluster_lem :
    {d : Disk} (f : IsFormatted d) (c : ℕ)
    → 1 ≤ c
    → c < d.cluster_count
    → fat_get_linked_cluster d c ≡ fat d c
unfolding fat_get_linked_cluster
fat_get_linked_cluster_lem f c one lt = linked_by_lem f 7 c one lt

pub poke-IsFormatted : {d : Disk} → IsFormatted d → (c o v : ℕ) → IsFormatted (poke d c o v)
poke-IsFormatted f c o v = record {
  mounted = f.mounted;
  size_min = f.size_min;
  count_min = f.count_min;
  table_fits = f.table_fits;
  count_max = f.count_max;
  fits = f.fits;
  fat_count = f.fat_count;
}

-- A write within a cluster changes that byte, and no other.
pub cell-poke_self :
    {d : Disk} (f : IsFormatted d) (c o v : ℕ)
    → c < d.cluster_count
    → o < d.cluster_size
    → cell (poke d c o v) c o ≡ u8 v
cell-poke_self {d} f c o v h k =
    rw (image_offset_lem f c o h k) (store_self d.image (c * d.cluster_size + o) (u8 v))

pub cell-poke_ne :
    {d : Disk} (f : IsFormatted d) (c o v c' o' : ℕ)
    → c < d.cluster_count
    → o < d.cluster_size
    → o' < d.cluster_size
    → (c' ≡ c → o' ≡ o → ⊥)
    → cell (poke d c o v) c' o' ≡ cell d c' o'
cell-poke_ne {d} f c o v c' o' h k k' ne = rw (image_offset_lem f c o h k) (
    store-ne d.image (c * d.cluster_size + o) (u8 v) (c' * d.cluster_size + o')
      (λ e. let (p, q) = place-injective c' o' c o d.cluster_size k' k e in ne p q))
