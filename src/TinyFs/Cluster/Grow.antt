-- ===== src/TinyFs/Cluster/Grow.antt =====
-- fs/tinyfs/code/cluster_operations.c, allocate_clusters_upto_offset: one cluster more, and what
-- the growth of a chain keeps.
use almost_os.Prelude.{
  ℕ, suc, ◌≤◌, ◌<◌, ◌≡◌, ◌≢◌, refl, sym, ap, ◌∙◌, List, [], ◌∷◌, ◌++◌, get_or, All, Absent,
  Distinct, arith, u8,
}
use almost_os.Prelude.Int.{ℤ, pos}
use almost_os.TinyFs.Disk.{Disk, chain_end, poke}
use almost_os.TinyFs.Cluster.{disk_full}
use almost_os.TinyFs.Cluster.Format.{
  IsFormatted, cell, fat, cell-poke_self, cell-poke_ne, poke-IsFormatted,
}
use almost_os.TinyFs.Cluster.Chain.{Links, IsData, IsChain}

-- What the growth of a chain keeps: the sizes, all data, and each entry of the table that is
-- neither free nor an entry of the chain.
pub record Kept (d d' : Disk) (chain : List ℕ) : Type 0 where
  pub formatted : IsFormatted d'
  pub size : d'.cluster_size ≡ d.cluster_size
  pub count : d'.cluster_count ≡ d.cluster_count
  pub data_cells : (c o : ℕ) → c ≢ 1 → o < d.cluster_size → cell d' c o ≡ cell d c o
  pub entries : (c : ℕ) → c < d.cluster_size → fat d c ≢ 0 → Absent c chain → fat d' c ≡ fat d c

-- The outcome of extending the chain `c ∷ cs` so that it has a cluster number `n`.
pub data Extension (d : Disk) (c : ℕ) (cs : List ℕ) (n : ℕ) : ℤ × ℕ × Disk → Type 0 where
  done :
      (more : List ℕ) (t : ℕ) (d' : Disk)
      → Kept d d' (c ∷ cs)
      → Links d' c (cs ++ more)
      → All (IsData d) more
      → All (λ x. fat d x ≡ 0) more
      → Distinct more
      → get_or (c ∷ (cs ++ more)) n chain_end ≡ t
      → t ≢ chain_end
      → Extension d c cs n (pos 0, t, d')
  out_of_space :
      (more : List ℕ) (current : ℕ) (d' : Disk)
      → Kept d d' (c ∷ cs)
      → Links d' c (cs ++ more)
      → All (IsData d) more
      → All (λ x. fat d x ≡ 0) more
      → Distinct more
      → ((j : ℕ) → 3 ≤ j → j < d.cluster_count → fat d' j ≢ 0)
      → Extension d c cs n (disk_full, current, d')

-- A cluster in use is none of the free ones.
pub Absent-free :
    (d : Disk) (i : ℕ) (xs : List ℕ) → fat d i ≢ 0 → All (λ x. fat d x ≡ 0) xs → Absent i xs
Absent-free d i [] used free = tt
Absent-free d i (x ∷ xs) used free =
    (λ e. used (ap (fat d) e ∙ free.0), Absent-free d i xs used free.1)

pub ++-nil : (xs : List ℕ) → xs ++ [] ≡ xs
++-nil [] = refl
++-nil (x ∷ xs) = ap (λ t. x ∷ t) (++-nil xs)

pub Kept-refl : {d : Disk} (chain : List ℕ) → IsFormatted d → Kept d d chain
Kept-refl chain f = record {
  formatted = f;
  size = refl;
  count = refl;
  data_cells = λ c o ne h. refl;
  entries = λ c h ne out. refl;
}

widen : {d d' : Disk} {c : ℕ} {chain : List ℕ} → Kept d d' chain → Kept d d' (c ∷ chain)
widen kept = record {
  formatted = kept.formatted;
  size = kept.size;
  count = kept.count;
  data_cells = kept.data_cells;
  entries = λ x h ne out. kept.entries x h ne out.1;
}

nonzero : {d : Disk} {c c' : ℕ} {cs : List ℕ} → IsChain d c (c' ∷ cs) → fat d c ≢ 0
nonzero k z = omega (arith, k.links.0, k.in_range.1.0.1)

-- One step along the chain.
pub along :
    {d : Disk} {c c' n : ℕ} {cs : List ℕ} {r : ℤ × ℕ × Disk}
    → IsFormatted d
    → IsChain d c (c' ∷ cs)
    → Extension d c' cs n r
    → Extension d c (c' ∷ cs) (suc n) r
along {d} {c} {c'} {n} {cs} f k (done more t d' kept links range free once at ne) =
    done more t d' (widen kept)
      (
        kept.entries c (omega (arith, f.table_fits, k.in_range.0.1)) (nonzero k) k.distinct.0
            ∙ k.links.0,
        links,
      )
      range free once at ne
along {d} {c} {c'} {n} {cs} f k (out_of_space more t d' kept links range free once none_left) =
    out_of_space more t d' (widen kept)
      (
        kept.entries c (omega (arith, f.table_fits, k.in_range.0.1)) (nonzero k) k.distinct.0
            ∙ k.links.0,
        links,
      )
      range free once none_left

-- The disk after cluster `i` is taken and linked behind `c`.
abbrev pub grown : Disk → ℕ → ℕ → Disk
grown d c i = poke (poke d 1 i chain_end) 1 c i

module _ {d : Disk} {c i : ℕ} (f : IsFormatted d) (k : IsChain d c []) (low : 3 ≤ i)
    (high : i < d.cluster_count) (free : fat d i ≡ 0) where
  other : c ≢ i
  other e = omega (arith, k.links, free, ap (fat d) e)

  fat-grown : (x : ℕ) → x < d.cluster_size → x ≢ c → x ≢ i → fat (grown d c i) x ≡ fat d x
  fat-grown x h nc ni =
      cell-poke_ne (poke-IsFormatted f 1 i chain_end) 1 c i 1 x (omega (arith, f.count_min))
        (omega (arith, f.table_fits, k.in_range.0.1)) h (λ p q. nc q)
      ∙ cell-poke_ne f 1 i chain_end 1 x (omega (arith, f.count_min)) (omega (arith, f.table_fits))
          h (λ p q. ni q)

  fat_new : fat (grown d c i) i ≡ chain_end
  fat_new =
      cell-poke_ne (poke-IsFormatted f 1 i chain_end) 1 c i 1 i (omega (arith, f.count_min))
        (omega (arith, f.table_fits, k.in_range.0.1)) (omega (arith, f.table_fits))
        (λ p q. other (sym q))
      ∙ cell-poke_self f 1 i chain_end (omega (arith, f.count_min)) (omega (arith, f.table_fits))

  fat_last : fat (grown d c i) c ≡ i
  fat_last =
      let byte : u8 i ≡ i = omega (arith, f.count_max) in
      cell-poke_self (poke-IsFormatted f 1 i chain_end) 1 c i (omega (arith, f.count_min))
        (omega (arith, f.table_fits, k.in_range.0.1))
      ∙ byte

  data_grown : (x o : ℕ) → x ≢ 1 → o < d.cluster_size → cell (grown d c i) x o ≡ cell d x o
  data_grown x o ne h =
      cell-poke_ne (poke-IsFormatted f 1 i chain_end) 1 c i x o (omega (arith, f.count_min))
        (omega (arith, f.table_fits, k.in_range.0.1)) h (λ p q. ne p)
      ∙ cell-poke_ne f 1 i chain_end x o (omega (arith, f.count_min)) (omega (arith, f.table_fits))
          h (λ p q. ne p)

  pub IsFormatted-grown : IsFormatted (grown d c i)
  IsFormatted-grown = poke-IsFormatted (poke-IsFormatted f 1 i chain_end) 1 c i

  pub IsChain-grown : IsChain (grown d c i) i []
  IsChain-grown = record {
    in_range = ((omega arith, high), tt);
    links = fat_new;
    distinct = (tt, tt);
  }

  Kept-grown : {d' : Disk} → Kept (grown d c i) d' (i ∷ []) → Kept d d' (c ∷ [])
  Kept-grown kept = record {
    formatted = kept.formatted;
    size = kept.size;
    count = kept.count;
    data_cells = λ x o ne h. kept.data_cells x o ne h ∙ data_grown x o ne h;
    entries = λ x h ne out.
        let ni : x ≢ i = λ e. ne (ap (fat d) e ∙ free) in
        let same = fat-grown x h out.0 ni in
        kept.entries x h (λ z. ne (sym same ∙ z)) (ni, tt) ∙ same;
  }

  -- What is free afterwards was free before.
  free_grown :
      (xs : List ℕ)
      → All (IsData (grown d c i)) xs
      → All (λ x. fat (grown d c i) x ≡ 0) xs
      → All (λ x. fat d x ≡ 0) xs
  free_grown [] range zeros = tt
  free_grown (x ∷ xs) range zeros = (
    sym (
          fat-grown x (omega (arith, f.table_fits, range.0.1))
            (λ e. omega (arith, ap (fat (grown d c i)) e, zeros.0, fat_last))
            (λ e. omega (arith, ap (fat (grown d c i)) e, zeros.0, fat_new)))
        ∙ zeros.0,
    free_grown xs range.1 zeros.1,
  )

  link-Kept : {d' : Disk} → Kept (grown d c i) d' (i ∷ []) → fat d' c ≡ i
  link-Kept kept =
      kept.entries c (omega (arith, f.table_fits, k.in_range.0.1)) (λ z. omega (arith, fat_last))
        (other, tt)
      ∙ fat_last

  once_grown :
      (xs : List ℕ) → All (λ x. fat (grown d c i) x ≡ 0) xs → Distinct xs → Distinct (i ∷ xs)
  once_grown xs zeros once =
      (Absent-free (grown d c i) i xs (λ z. omega (arith, fat_new)) zeros, once)

  -- The chain grows by `i`, and then from there.
  pub grow :
      {n : ℕ} {r : ℤ × ℕ × Disk} → Extension (grown d c i) i [] n r → Extension d c [] (suc n) r
  grow (done more t d' kept links range zeros once at ne) =
      done (i ∷ more) t d' (Kept-grown kept) (link-Kept kept, links) ((omega arith, high), range)
        (free, free_grown more range zeros) (once_grown more zeros once) at ne
  grow (out_of_space more t d' kept links range zeros once none_left) =
      out_of_space (i ∷ more) t d' (Kept-grown kept) (link-Kept kept, links)
        ((omega arith, high), range) (free, free_grown more range zeros)
        (once_grown more zeros once) none_left
