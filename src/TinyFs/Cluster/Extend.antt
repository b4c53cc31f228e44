-- ===== src/TinyFs/Cluster/Extend.antt =====
-- fs/tinyfs/code/cluster_operations.c, allocate_clusters_upto_offset: the loop over the clusters.
use almost_os.Prelude.{
  ℕ, zero, suc, ◌≤◌, ◌<◌, ◌≡◌, refl, ◌∙◌, true, false, List, [], ◌∷◌, arith, ◌==◌,
}
use almost_os.TinyFs.Disk.{Disk, chain_end, poke}
use almost_os.TinyFs.Cluster.{
  disk_full, extend_by, allocate_by, write_at, Writer, fat_get_linked_cluster,
}
use almost_os.TinyFs.Cluster.Format.{IsFormatted, fat, fat_get_linked_cluster_lem, write_direct}
use almost_os.TinyFs.Cluster.Chain.{IsChain}
use almost_os.TinyFs.Cluster.Alloc.{Allocation, taken, full, allocate_by-Allocation}
use almost_os.TinyFs.Cluster.Grow.{
  Extension, done, out_of_space, ++-nil, Kept-refl, along, grow, grown, IsFormatted-grown,
  IsChain-grown,
}

rest : {d : Disk} {c c' : ℕ} {cs : List ℕ} → IsChain d c (c' ∷ cs) → IsChain d c' cs
rest k = record { in_range = k.in_range.1; links = k.links.1; distinct = k.distinct.1 }

-- The round of the loop at the end of the chain.
extend_last :
    {d : Disk} (depth n : ℕ) {c : ℕ} {r : ℕ × Disk}
    → IsFormatted d
    → IsChain d c []
    → Allocation d r
    → ((i : ℕ)
        → 3 ≤ i
        → i < d.cluster_count
        → fat d i ≡ 0
        → Extension (grown d c i) i [] n (extend_by (write_at (suc depth)) n i (grown d c i)))
    → Extension d c [] (suc n) (elim (r.0 == chain_end) [
      | true ↦ (disk_full, c, r.1)
      | false ↦ extend_by (write_at (suc depth)) n r.0 (write_at (suc depth) r.1 1 c r.0).1
    ])
extend_last {d} depth n {c} f k (taken i low high free first) next =
    let inside : (i == chain_end) ≡ false = ground (arith, f.count_max) in
    rw
      (
        inside,
        write_direct (poke d 1 i chain_end) depth 1 c i
            (omega (arith, f.table_fits, k.in_range.0.1)),
      )
      (grow f k low high free (next i low high free))
extend_last {d} depth n {c} f k (full none_left) next =
    out_of_space [] c d (Kept-refl (c ∷ []) f) k.links tt tt tt none_left

extend_by-suc :
    (write : Writer) (n c : ℕ) (d : Disk)
    → extend_by write (suc n) c d ≡ elim (fat_get_linked_cluster d c == chain_end) [
      | false ↦ extend_by write n (fat_get_linked_cluster d c) d
      | true ↦ elim ((allocate_by write d).0 == chain_end) [
        | true ↦ (disk_full, c, (allocate_by write d).1)
        | false ↦
            extend_by write n
              (allocate_by write d).0
              (write (allocate_by write d).1 1 c (allocate_by write d).0).1
      ]
    ]
unfolding extend_by
extend_by-suc write n c d = refl

extend_by-next :
    (write : Writer) (n c c' : ℕ) (d : Disk)
    → fat_get_linked_cluster d c ≡ c'
    → (c' == chain_end) ≡ false
    → extend_by write (suc n) c d ≡ extend_by write n c' d
extend_by-next write n c c' d link inside = extend_by-suc write n c d ∙ simp (link, inside)

extend_by-last :
    (write : Writer) (n c : ℕ) (d : Disk)
    → fat_get_linked_cluster d c ≡ chain_end
    → extend_by write (suc n) c d ≡ elim ((allocate_by write d).0 == chain_end) [
      | true ↦ (disk_full, c, (allocate_by write d).1)
      | false ↦
          extend_by write n
            (allocate_by write d).0
            (write (allocate_by write d).1 1 c (allocate_by write d).0).1
    ]
extend_by-last write n c d link = extend_by-suc write n c d ∙ simp link

-- On a formatted disk the loop of `allocate_clusters_upto_offset` follows a chain and appends free
-- clusters until the chain has the cluster asked for, or until none is free. Data, other entries
-- in use and the links of the chain stay, and the clusters appended are different ones that were
-- free.
pub extend_by-Extension :
    (depth n : ℕ) {d : Disk} (c : ℕ) (cs : List ℕ)
    → IsFormatted d
    → IsChain d c cs
    → Extension d c cs n (extend_by (write_at (suc depth)) n c d)
unfolding extend_by
extend_by-Extension depth zero {d} c cs f k =
    done [] c d (Kept-refl (c ∷ cs) f) (rw (++-nil cs) k.links) tt tt tt refl
      (λ e. omega (arith, k.in_range.0.1, f.count_max))
extend_by-Extension depth (suc n) {d} c (c' ∷ cs) f k =
    let link : fat_get_linked_cluster d c ≡ c' =
      fat_get_linked_cluster_lem f c (omega (arith, k.in_range.0.1)) k.in_range.0.1 ∙ k.links.0 in
    let inside : (c' == chain_end) ≡ false = ground (arith, k.in_range.1.0.1, f.count_max) in
    rw (extend_by-next (write_at (suc depth)) n c c' d link inside)
      (along f k (extend_by-Extension depth n c' cs f (rest k)))
extend_by-Extension depth (suc n) {d} c [] f k =
    let link : fat_get_linked_cluster d c ≡ chain_end =
      fat_get_linked_cluster_lem f c (omega (arith, k.in_range.0.1)) k.in_range.0.1 ∙ k.links in
    rw (extend_by-last (write_at (suc depth)) n c d link) (
      extend_last depth n f k (allocate_by-Allocation depth f) (λ i low high free.
        extend_by-Extension depth n i [] (IsFormatted-grown f k low high free)
          (IsChain-grown f k low high free)))
