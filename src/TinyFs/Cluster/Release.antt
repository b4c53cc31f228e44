-- ===== src/TinyFs/Cluster/Release.antt =====
-- fs/tinyfs/code/cluster_operations.c, free_clusters, on a chain.
use almost_os.Prelude.{
  ℕ, zero, suc, ◌<◌, ◌≡◌, ◌≢◌, sym, ◌∙◌, false, some, List, [], ◌∷◌, length, All, Absent, Distinct,
  arith, ◌==◌, ◌||◌,
}
use almost_os.Prelude.Int.{pos}
use almost_os.TinyFs.Disk.{Disk, chain_end, poke}
use almost_os.TinyFs.Cluster.{
  free_clusters_by, free_clusters, fat_get_linked_cluster, cluster_write_8bit,
}
use almost_os.TinyFs.Cluster.Format.{
  IsFormatted, cell, fat, fat_get_linked_cluster_lem, write_direct, cell-poke_self, cell-poke_ne,
  poke-IsFormatted,
}
use almost_os.TinyFs.Cluster.Chain.{Links, IsData, IsChain}
use almost_os.TinyFs.Cluster.Free.{IsChain-length}

-- From `d` to `d'` the entries of the clusters `xs` have become 0, and nothing else has changed in
-- the table or in the data.
pub record Freed (d d' : Disk) (xs : List ℕ) : Type 0 where
  pub formatted : IsFormatted d'
  pub zeros : All (λ x. fat d' x ≡ 0) xs
  pub others : (x : ℕ) → x < d.cluster_size → Absent x xs → fat d' x ≡ fat d x
  pub data_cells : (x o : ℕ) → x ≢ 1 → o < d.cluster_size → cell d' x o ≡ cell d x o

module _ {d : Disk} (f : IsFormatted d) (c : ℕ) (at : IsData d c) where
  entry_freed : fat (poke d 1 c 0) c ≡ 0
  entry_freed =
      cell-poke_self f 1 c 0 (omega (arith, f.count_min)) (omega (arith, f.table_fits, at.1))

  entry_kept : (x : ℕ) → x < d.cluster_size → x ≢ c → fat (poke d 1 c 0) x ≡ fat d x
  entry_kept x h ne =
      cell-poke_ne f 1 c 0 1 x (omega (arith, f.count_min)) (omega (arith, f.table_fits, at.1)) h
        (λ p q. ne q)

  data_kept : (x o : ℕ) → x ≢ 1 → o < d.cluster_size → cell (poke d 1 c 0) x o ≡ cell d x o
  data_kept x o ne h =
      cell-poke_ne f 1 c 0 x o (omega (arith, f.count_min)) (omega (arith, f.table_fits, at.1)) h
        (λ p q. ne p)

  Links-kept :
      (e : ℕ) (es : List ℕ)
      → All (IsData d) (e ∷ es)
      → Absent c (e ∷ es)
      → Links d e es
      → Links (poke d 1 c 0) e es
  Links-kept e [] range out links =
      entry_kept e (omega (arith, f.table_fits, range.0.1)) (λ q. out.0 (sym q)) ∙ links
  Links-kept e (e' ∷ es) range out links = (
    entry_kept e (omega (arith, f.table_fits, range.0.1)) (λ q. out.0 (sym q)) ∙ links.0,
    Links-kept e' es range.1 out.1 links.1,
  )

  Freed-alone : Freed d (poke d 1 c 0) (c ∷ [])
  Freed-alone = record {
    formatted = poke-IsFormatted f 1 c 0;
    zeros = (entry_freed, tt);
    others = λ x h out. entry_kept x h out.0;
    data_cells = data_kept;
  }

  Freed-first :
      {d' : Disk} {xs : List ℕ} → Absent c xs → Freed (poke d 1 c 0) d' xs → Freed d d' (c ∷ xs)
  Freed-first out r = record {
    formatted = r.formatted;
    zeros = (r.others c (omega (arith, f.table_fits, at.1)) out ∙ entry_freed, r.zeros);
    others = λ x h apart. r.others x h apart.1 ∙ entry_kept x h apart.0;
    data_cells = λ x o ne h. r.data_cells x o ne h ∙ data_kept x o ne h;
  }

free-next :
    (fuel : ℕ) (d p : Disk) (c c' : ℕ)
    → (c == 0 || c == chain_end) ≡ false
    → fat_get_linked_cluster d c ≡ c'
    → (c' == chain_end) ≡ false
    → cluster_write_8bit d 1 c 0 ≡ (pos 0, p)
    → free_clusters_by (suc fuel) d c ≡ free_clusters_by fuel p c'
unfolding free_clusters_by
free-next fuel d p c c' inside link on written = simp (inside, link, on, written)

free-last :
    (fuel : ℕ) (d p : Disk) (c : ℕ)
    → (c == 0 || c == chain_end) ≡ false
    → fat_get_linked_cluster d c ≡ chain_end
    → cluster_write_8bit d 1 c 0 ≡ (pos 0, p)
    → free_clusters_by (suc fuel) d c ≡ some (pos 0, p)
unfolding free_clusters_by
free-last fuel d p c inside link written = simp (inside, link, written)

inside_lem : {d : Disk} (c : ℕ) → IsFormatted d → IsData d c → (c == 0 || c == chain_end) ≡ false
inside_lem c f at = ground (arith, at.0, at.1, f.count_max)

free_clusters_by-Freed :
    (fuel : ℕ) {d : Disk} (c : ℕ) (cs : List ℕ)
    → IsFormatted d
    → All (IsData d) (c ∷ cs)
    → Links d c cs
    → Distinct (c ∷ cs)
    → length cs < fuel
    → (d' : Disk) × (free_clusters_by fuel d c ≡ some (pos 0, d')) × Freed d d' (c ∷ cs)
free_clusters_by-Freed zero c cs f range links once enough = absurd (omega arith)
free_clusters_by-Freed (suc fuel) {d} c [] f range links once enough =
    let at = range.0 in
    (
      poke d 1 c 0,
      free-last fuel d (poke d 1 c 0) c (inside_lem c f at)
          (fat_get_linked_cluster_lem f c (omega (arith, at.0)) at.1 ∙ links)
          (write_direct d 7 1 c 0 (omega (arith, f.table_fits, at.1))),
      Freed-alone f c at,
    )
free_clusters_by-Freed (suc fuel) {d} c (c' ∷ cs) f range links once enough =
    let at = range.0 in
    let p = poke d 1 c 0 in
    let (d', e, r) =
      free_clusters_by-Freed fuel c' cs (poke-IsFormatted f 1 c 0) range.1
        (Links-kept f c at c' cs range.1 once.0 links.1) once.1 (omega arith) in
    (
      d',
      free-next fuel d p c c' (inside_lem c f at)
            (fat_get_linked_cluster_lem f c (omega (arith, at.0)) at.1 ∙ links.0)
            (ground (arith, range.1.0.1, f.count_max))
            (write_direct d 7 1 c 0 (omega (arith, f.table_fits, at.1)))
          ∙ e,
      Freed-first f c at once.0 r,
    )

-- On a formatted disk `free_clusters` comes to an end on every chain and answers 0: the entries of
-- the chain's clusters are 0 then, so that each is free, and all other entries and all data are as
-- they were.
pub free_clusters-Freed :
    {d : Disk} {c : ℕ} {cs : List ℕ}
    → IsFormatted d
    → IsChain d c cs
    → (d' : Disk) × (free_clusters d c ≡ some (pos 0, d')) × Freed d d' (c ∷ cs)
free_clusters-Freed {d} {c} {cs} f k =
    free_clusters_by-Freed 256 c cs f k.in_range k.links k.distinct
      (omega (arith, IsChain-length f k))
