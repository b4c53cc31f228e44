-- ===== src/TinyFs/Cluster/Chain.antt =====
-- fs/tinyfs/code/cluster_operations.c: the chain of clusters of a file, and reads and writes
-- within it.
use almost_os.Prelude.{
  ℕ, zero, suc, ◌+◌, ◌*◌, ◌/◌, ◌%◌, ◌≤◌, ◌<◌, ◌≡◌, refl, ap, ◌∙◌, ◌⊎◌, inl, inr, true, false, List,
  [], ◌∷◌, get_or, All, Distinct, arith, leb, ◌==◌, if◌then◌else◌, dec_lt, Bool-cases,
}
use native.Mathlib.Nat.{mod-eq_of_lt}
use almost_os.Prelude.Int.{ℤ, pos, negsuc}
use almost_os.TinyFs.Disk.{Disk, chain_end, image_offset, poke}
use almost_os.TinyFs.Cluster.{
  walk, linked_by, read_by, write_by, Writer, get_cluster_at_offset, read_at, write_at,
  fat_get_linked_cluster,
}
use almost_os.TinyFs.Cluster.Format.{
  IsFormatted, cell, fat, image_offset_lem, linked_by_lem, fat_get_linked_cluster_lem, read_direct,
  write_direct,
}

-- The clusters `c ∷ cs` are linked in this order, and the last one ends the chain.
abbrev pub Links : Disk → ℕ → List ℕ → Type 0
Links d c [] = fat d c ≡ chain_end
Links d c (c' ∷ cs) = (fat d c ≡ c') × Links d c' cs

-- A cluster that may hold data: neither cluster 0 nor the FAT.
abbrev pub IsData : Disk → ℕ → Type 0
IsData d c = (2 ≤ c) × (c < d.cluster_count)

-- The chain of a file: data clusters, linked in order, none of them twice.
pub record IsChain (d : Disk) (c : ℕ) (cs : List ℕ) : Type 0 where
  pub in_range : All (IsData d) (c ∷ cs)
  pub links : Links d c cs
  pub distinct : Distinct (c ∷ cs)

-- The cluster that holds offset `o` of a file, or the end mark.
abbrev pub cluster_of : Disk → ℕ → List ℕ → ℕ → ℕ
cluster_of d c cs o = get_or (c ∷ cs) (o / d.cluster_size) chain_end

-- What a file promises to a read: its byte at the offset, or -1 and no change past its chain.
abbrev pub answer : Disk → ℕ → List ℕ → ℕ → ℕ → ℤ × ℕ
answer d c cs o value =
    if cluster_of d c cs o == chain_end
    then (negsuc 0, value)
    else (pos 0, cell d (cluster_of d c cs o) (o % d.cluster_size))

walk-end : (link : ℕ → ℕ) (n : ℕ) → link chain_end ≡ chain_end → walk link n chain_end ≡ chain_end
unfolding walk
walk-end link zero h = refl
walk-end link (suc n) h = rw h (walk-end link n h)

-- Following the links meets the clusters of the chain in order, and then the end mark.
walk_lem :
    (d : Disk) (link : ℕ → ℕ) (n c : ℕ) (cs : List ℕ)
    → link chain_end ≡ chain_end
    → ((k : ℕ) → 1 ≤ k → k < d.cluster_count → link k ≡ fat d k)
    → All (IsData d) (c ∷ cs)
    → Links d c cs
    → walk link n c ≡ get_or (c ∷ cs) n chain_end
unfolding walk
walk_lem d link zero c cs last step range links = refl
walk_lem d link (suc n) c [] last step range links =
    rw (step c (omega arith) range.0.1 ∙ links) (walk-end link n last)
walk_lem d link (suc n) c (c' ∷ cs) last step range links =
    rw (step c (omega arith) range.0.1 ∙ links.0)
      (walk_lem d link n c' cs last step range.1 links.1)

-- The search for an offset gives its cluster, or fails with -1 past the chain.
pub get_cluster_at_offset_lem :
    (d : Disk) (link : ℕ → ℕ) (o target c : ℕ) (cs : List ℕ)
    → IsFormatted d
    → link chain_end ≡ chain_end
    → ((k : ℕ) → 1 ≤ k → k < d.cluster_count → link k ≡ fat d k)
    → All (IsData d) (c ∷ cs)
    → Links d c cs
    → get_cluster_at_offset link d.cluster_size c o target ≡ (
        if cluster_of d c cs o == chain_end
        then (negsuc 0, target)
        else (pos 0, cluster_of d c cs o))
unfolding get_cluster_at_offset
get_cluster_at_offset_lem d link o target c cs f last step range links =
    let sized : (d.cluster_size == 0) ≡ false = ground (arith, f.size_min) in
    simp (sized, walk_lem d link (o / d.cluster_size) c cs last step range links)

-- The cluster found is a data cluster, unless the offset lies past the chain.
pub cluster_of-IsData :
    (d : Disk) (n : ℕ) (cs : List ℕ)
    → All (IsData d) cs
    → (get_or cs n chain_end ≡ chain_end) ⊎ IsData d (get_or cs n chain_end)
cluster_of-IsData d n [] range = inl refl
cluster_of-IsData d zero (c ∷ cs) range = inr range.0
cluster_of-IsData d (suc n) (c ∷ cs) range = cluster_of-IsData d n cs range.1

-- Within the first cluster the offset needs no link.
pub cluster_of-first :
    (d : Disk) (c : ℕ) (cs : List ℕ) (o : ℕ) → o < d.cluster_size → cluster_of d c cs o ≡ c
cluster_of-first d c cs o h =
    let start : o / d.cluster_size ≡ 0 = grind arith in ap (λ n. get_or (c ∷ cs) n chain_end) start

mod-first : (o n : ℕ) → o < n → o % n ≡ o
mod-first o n h = mod-eq_of_lt h

read_at-suc :
    (depth : ℕ) (d : Disk) (c o value : ℕ)
    → read_at (suc depth) d c o value
      ≡ read_by (linked_by (λ x. read_at depth d 1 x chain_end)) d c o value
unfolding read_at
read_at-suc depth d c o value = refl

pub write_at-suc :
    (depth : ℕ) (d : Disk) (c o v : ℕ)
    → write_at (suc depth) d c o v ≡ write_by (write_at depth) d c o v
unfolding write_at
write_at-suc depth d c o v = refl

pub fat_get_linked_cluster-end : (d : Disk) → fat_get_linked_cluster d chain_end ≡ chain_end
unfolding fat_get_linked_cluster
fat_get_linked_cluster-end d = refl

module _ {d : Disk} {c : ℕ} {cs : List ℕ} (f : IsFormatted d) (k : IsChain d c cs) where
  head_found : (c == chain_end) ≡ false
  head_found = ground (arith, f.count_max, k.in_range.0.1)

  sized : (d.cluster_size == 0) ≡ false
  sized = ground (arith, f.size_min)

  -- Where the search finds a cluster, it is one of the chain's.
  pub within_IsData :
      (o : ℕ) → (cluster_of d c cs o == chain_end) ≡ false → IsData d (cluster_of d c cs o)
  within_IsData o h = elim (cluster_of-IsData d (o / d.cluster_size) (c ∷ cs) k.in_range) [
    | inl e ↦ absurd (ground arith)
    | inr data_cluster ↦ data_cluster
  ]

  located :
      (o : ℕ)
      → (cluster_of d c cs o == chain_end) ≡ false
      → image_offset d (cluster_of d c cs o) (o % d.cluster_size)
        ≡ cluster_of d c cs o * d.cluster_size + o % d.cluster_size
  located o h =
      image_offset_lem f (cluster_of d c cs o) (o % d.cluster_size) (within_IsData o h).1
        (omega (arith, f.size_min))

  -- A read over links that are those of the table.
  read_by_lem :
      (link : ℕ → ℕ) (o value : ℕ)
      → link chain_end ≡ chain_end
      → ((x : ℕ) → 1 ≤ x → x < d.cluster_count → link x ≡ fat d x)
      → d.cluster_size ≤ o
      → read_by link d c o value ≡ answer d c cs o value
  unfolding read_by
  read_by_lem link o value last step h =
      let outside : leb d.cluster_size o ≡ true = ground arith in
      simp
        (
          f.mounted,
          outside,
          sized,
          get_cluster_at_offset_lem d link o c c cs f last step k.in_range k.links,
        )
        (elim (Bool-cases (cluster_of d c cs o == chain_end)) [
          | inl past ↦ simp past
          | inr within ↦ simp within (ap (λ t. (pos 0, d.image t)) (located o within))
        ])

  -- A write past the first cluster.
  write_by_lem :
      (write : Writer) (o v : ℕ)
      → (cluster_of d c cs o == chain_end) ≡ false
      → d.cluster_size ≤ o
      → write_by write d c o v ≡ (pos 0, poke d (cluster_of d c cs o) (o % d.cluster_size) v)
  unfolding write_by
  write_by_lem write o v within h =
      let outside : leb d.cluster_size o ≡ true = ground arith in
      simp (
        outside,
        sized,
        get_cluster_at_offset_lem d (fat_get_linked_cluster d) o c c cs f
            (fat_get_linked_cluster-end d) (λ x one lt. fat_get_linked_cluster_lem f x one lt)
            k.in_range k.links,
        within,
      )

  -- On a formatted disk a read of a file's chain gives the byte of the cluster that holds the
  -- offset, or -1 and no value past the chain; two levels of calls are enough.
  pub read_at_lem :
      (depth o value : ℕ) → read_at (suc (suc depth)) d c o value ≡ answer d c cs o value
  read_at_lem depth o value = elim (dec_lt o d.cluster_size) [
    | yes h ↦
        rw (cluster_of-first d c cs o h, mod-first o d.cluster_size h, head_found)
          (read_direct f (suc depth) c o value k.in_range.0.1 h)
    | no h ↦
        read_at-suc (suc depth) d c o value
        ∙ read_by_lem (linked_by (λ x. read_at (suc depth) d 1 x chain_end)) o value refl
            (λ x one lt. linked_by_lem f depth x one lt) (omega arith)
  ]

  -- A write over an offset of the chain changes the byte there, whatever writes the table.
  pub write_at_lem :
      (depth o v : ℕ)
      → (cluster_of d c cs o == chain_end) ≡ false
      → write_at (suc depth) d c o v ≡ (pos 0, poke d (cluster_of d c cs o) (o % d.cluster_size) v)
  write_at_lem depth o v within = elim (dec_lt o d.cluster_size) [
    | yes h ↦
        rw (cluster_of-first d c cs o h, mod-first o d.cluster_size h)
          (write_direct d depth c o v h)
    | no h ↦ write_at-suc depth d c o v ∙ write_by_lem (write_at depth) o v within (omega arith)
  ]
