-- ===== src/TinyFs/Cluster/Alloc.antt =====
-- fs/tinyfs/code/FAT_cluster.c, FAT_allocate_cluster.
use almost_os.Prelude.{
  ℕ, zero, suc, ◌+◌, ◌-◌, ◌≤◌, ◌<◌, ◌≡◌, ◌≢◌, inl, inr, arith, ◌==◌, Bool-cases, ℕ_discrete,
}
use almost_os.TinyFs.Disk.{Disk, chain_end, poke}
use almost_os.TinyFs.Cluster.{allocate_from, allocate_by, write_at, fat_get_linked_cluster}
use almost_os.TinyFs.Cluster.Format.{IsFormatted, fat, fat_get_linked_cluster_lem, write_direct}

-- The outcome of an allocation: the first cluster from 3 on with a free entry, which now ends a
-- chain; or the end mark, with no entry free and the disk as it was.
pub data Allocation (d : Disk) : ℕ × Disk → Type 0 where
  taken :
      (i : ℕ)
      → 3 ≤ i
      → i < d.cluster_count
      → fat d i ≡ 0
      → ((j : ℕ) → 3 ≤ j → j < i → fat d j ≢ 0)
      → Allocation d (i, poke d 1 i chain_end)
  full : ((j : ℕ) → 3 ≤ j → j < d.cluster_count → fat d j ≢ 0) → Allocation d (chain_end, d)

-- One more entry is known to be in use.
known_up_to :
    (d : Disk) (i : ℕ)
    → ((j : ℕ) → 3 ≤ j → j < i → fat d j ≢ 0)
    → fat d i ≢ 0
    → (j : ℕ) → 3 ≤ j
    → j < i + 1
    → fat d j ≢ 0
known_up_to d i known ne j low high = elim (ℕ_discrete j i) [
  | yes e ↦ rw e ne
  | no other ↦ known j low (omega arith)
]

allocate_from-Allocation :
    {d : Disk} (depth n i : ℕ)
    → IsFormatted d
    → 3 ≤ i
    → i + n ≡ d.cluster_count
    → ((j : ℕ) → 3 ≤ j → j < i → fat d j ≢ 0)
    → Allocation d (allocate_from (write_at (suc depth)) n i d)
unfolding allocate_from
allocate_from-Allocation depth zero i f low e known = full (λ j p q. known j p (omega arith))
allocate_from-Allocation {d} depth (suc n) i f low e known =
    let link : fat_get_linked_cluster d i ≡ fat d i =
      fat_get_linked_cluster_lem f i (omega arith) (omega arith) in
    elim (Bool-cases (fat d i == 0)) [
      | inl free ↦
          rw (link, free, write_direct d depth 1 i chain_end (omega (arith, f.table_fits)))
            (taken i low (omega arith) (ground arith) known)
      | inr used ↦
          rw (link, used)
            (allocate_from-Allocation depth n (i + 1) f (omega arith) (omega arith)
              (known_up_to d i known (λ (z : fat d i ≡ 0). ground arith)))
    ]

-- On a formatted disk `FAT_allocate_cluster` takes the first free cluster from 3 on and marks it
-- as the end of a chain, or answers the end mark and changes nothing if none is free; so at any
-- depth of calls that lets it write the table.
pub allocate_by-Allocation :
    {d : Disk} (depth : ℕ) → IsFormatted d → Allocation d (allocate_by (write_at (suc depth)) d)
unfolding allocate_by
allocate_by-Allocation {d} depth f =
    allocate_from-Allocation depth (d.fat_cluster_count - 3) 3 f (omega arith)
      (omega (arith, f.count_min, f.fat_count)) (λ j p q. absurd (omega arith))
