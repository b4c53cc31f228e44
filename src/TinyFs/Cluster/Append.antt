-- ===== src/TinyFs/Cluster/Append.antt =====
-- fs/tinyfs/code/cluster_operations.c, cluster_write_8bit at an offset past the chain of a file.
use almost_os.Prelude.{
  ℕ, ◌/◌, ◌%◌, ◌≤◌, ◌<◌, ◌≡◌, ◌≢◌, refl, sym, ap, ap₂, ◌∙◌, true, false, List, ◌∷◌, ◌++◌, get_or,
  All, Absent, arith, leb, ◌==◌, if◌then◌else◌, dec_lt, ℕ_discrete, Bool-cases, inl, inr,
}
use mathlib.Core.Path.{subst}
use almost_os.Prelude.Int.{ℤ, pos, is_zero}
use almost_os.TinyFs.Disk.{Disk, chain_end, poke}
use almost_os.TinyFs.Cluster.{
  disk_full, extend_by, allocate_upto, write_by, write_at, fat_get_linked_cluster,
  cluster_read_8bit, cluster_write_8bit,
}
use almost_os.TinyFs.Cluster.Format.{IsFormatted, fat, fat_get_linked_cluster_lem}
use almost_os.TinyFs.Cluster.Chain.{
  IsChain, cluster_of, get_cluster_at_offset_lem, read_at_lem, write_at_lem, write_at-suc,
  cluster_of-first, fat_get_linked_cluster-end,
}
use almost_os.TinyFs.Cluster.ReadWrite.{read-write, write-other, Apart}
use almost_os.TinyFs.Cluster.Grow.{Kept, Extension, done, out_of_space}
use almost_os.TinyFs.Cluster.Extend.{extend_by-Extension}
use almost_os.TinyFs.Cluster.Keep.{
  All-++, Links-used, free_apart, IsChain-Kept, other_kept, answer-Kept, answer_grown,
}

-- The outcome of the write: the file has grown and holds the byte, or the disk is full.
pub data Growth (d : Disk) (c : ℕ) (cs : List ℕ) (o v : ℕ) : ℤ × Disk → Type 0 where
  stored :
      (more : List ℕ) (d' : Disk)
      → IsFormatted d'
      → IsChain d' c (cs ++ more)
      → All (λ x. fat d x ≡ 0) more
      → ((value : ℕ) → cluster_read_8bit d' c o value ≡ (pos 0, v))
      → ((o' value : ℕ)
          → cluster_of d c cs o' ≢ chain_end
          → cluster_read_8bit d' c o' value ≡ cluster_read_8bit d c o' value)
      → ((e : ℕ) (es : List ℕ)
          → IsChain d e es
          → Apart (c ∷ cs) (e ∷ es)
          → IsChain d' e es
            × ((o' value : ℕ) → cluster_read_8bit d' e o' value ≡ cluster_read_8bit d e o' value))
      → Growth d c cs o v (pos 0, d')
  no_space :
      (d' : Disk)
      → IsFormatted d'
      → ((j : ℕ) → 3 ≤ j → j < d.cluster_count → fat d' j ≢ 0)
      → Growth d c cs o v (disk_full, d')

past_first :
    (d : Disk) (c : ℕ) (cs : List ℕ) (o : ℕ)
    → IsFormatted d
    → IsChain d c cs
    → cluster_of d c cs o ≡ chain_end
    → leb d.cluster_size o ≡ true
past_first d c cs o f k past = elim (dec_lt o d.cluster_size) [
  | yes h ↦
      absurd (omega (arith, k.in_range.0.1, f.count_max, sym (cluster_of-first d c cs o h) ∙ past))
  | no h ↦ ground arith
]

-- A write past the chain extends it, and then writes to the cluster reached.
write_past :
    {d : Disk} {c : ℕ} {cs : List ℕ} (o v : ℕ)
    → IsFormatted d
    → IsChain d c cs
    → cluster_of d c cs o ≡ chain_end
    → cluster_write_8bit d c o v ≡ (
        let (ret, current, d') = extend_by (write_at 7) (o / d.cluster_size) c d in
        if is_zero ret then (pos 0, poke d' current (o % d.cluster_size) v) else (ret, d'))
unfolding write_by allocate_upto
write_past {d} {c} {cs} o v f k past =
    let outside : leb d.cluster_size o ≡ true = past_first d c cs o f k past in
    let sized : (d.cluster_size == 0) ≡ false = ground (arith, f.size_min) in
    let at_end : (cluster_of d c cs o == chain_end) ≡ true = ground arith in
    write_at-suc 7 d c o v
    ∙ simp
        (
          outside,
          sized,
          get_cluster_at_offset_lem d (fat_get_linked_cluster d) o c c cs f
              (fat_get_linked_cluster-end d) (λ x one lt. fat_get_linked_cluster_lem f x one lt)
              k.in_range k.links,
          at_end,
        )
        (elim (Bool-cases (is_zero (extend_by (write_at 7) (o / d.cluster_size) c d).0)) [
          | inl z ↦ simp z
          | inr nz ↦ simp nz
        ])

elsewhere : (o o' : ℕ) (at : ℕ → ℕ) → at o ≡ chain_end → at o' ≢ chain_end → (o' == o) ≡ false
elsewhere o o' at past ne = elim (ℕ_discrete o' o) [
  | yes e ↦ absurd (ne (ap at e ∙ past))
  | no other ↦ ground arith
]

-- The write once the chain has reached the offset.
store_grown :
    {d d' : Disk} {c : ℕ} {cs : List ℕ} (o v t : ℕ) (more : List ℕ)
    → IsFormatted d
    → IsChain d c cs
    → cluster_of d c cs o ≡ chain_end
    → v < 256
    → Kept d d' (c ∷ cs)
    → IsChain d' c (cs ++ more)
    → All (λ x. fat d x ≡ 0) more
    → get_or (c ∷ (cs ++ more)) (o / d.cluster_size) chain_end ≡ t
    → t ≢ chain_end
    → Growth d c cs o v (pos 0, poke d' t (o % d.cluster_size) v)
store_grown {d} {d'} {c} {cs} o v t more f k past small kept k' free at ne =
    let f' = kept.formatted in
    let there : cluster_of d' c (cs ++ more) o ≡ t =
      ap (λ s. get_or (c ∷ (cs ++ more)) (o / s) chain_end) kept.size ∙ at in
    let inside : (cluster_of d' c (cs ++ more) o == chain_end) ≡ false = ground arith in
    let same : (cluster_write_8bit d' c o v).1 ≡ poke d' t (o % d.cluster_size) v =
      ap (λ r. r.1) (write_at_lem f' k' 7 o v inside)
      ∙ ap₂ (λ x s. poke d' x (o % s) v) there kept.size in
    let on : cluster_of d' c (cs ++ more) o ≢ chain_end = λ e. ne (sym there ∙ e) in
    let (_, formatted, chain, bytes) = read-write o v f' k' on small in
    subst (λ x. Growth d c cs o v (pos 0, x)) same
      (stored more (cluster_write_8bit d' c o v).1 formatted chain free
        (λ value. bytes o value ∙ let here : (o == o) ≡ true = ground arith in rw here refl)
        (λ o' value ne'.
          let other : (o' == o) ≡ false = elsewhere o o' (cluster_of d c cs) past ne' in
          bytes o' value
          ∙ rw other (
              read_at_lem f' k' 6 o' value
              ∙ answer_grown more o' value f kept k ne'
              ∙ sym (read_at_lem f k 6 o' value)))
        (λ e es l apart.
          let l' = other_kept f kept l apart in
          let apart' : Apart (c ∷ (cs ++ more)) (e ∷ es) =
            All-++ (λ x. Absent x (e ∷ es)) (c ∷ cs) more apart
              (free_apart d more (e ∷ es) free (Links-used d e es l.in_range l.links)) in
          let (p, q) = write-other o v f' k' l' apart' on in
          (
            p,
            λ o' value.
                q o' value
                ∙ read_at_lem f' l' 6 o' value
                ∙ answer-Kept o' value f kept l
                ∙ sym (read_at_lem f l 6 o' value),
          )))

grown_write :
    {d : Disk} {c : ℕ} {cs : List ℕ} (o v : ℕ) {r : ℤ × ℕ × Disk}
    → IsFormatted d
    → IsChain d c cs
    → cluster_of d c cs o ≡ chain_end
    → v < 256
    → Extension d c cs (o / d.cluster_size) r
    → Growth d c cs o v
        (if is_zero r.0 then (pos 0, poke r.2 r.1 (o % d.cluster_size) v) else (r.0, r.2))
grown_write o v f k past small (done more t d' kept links range free once at ne) =
    store_grown o v t more f k past small kept (IsChain-Kept more k kept links range free once) free
      at ne
grown_write o v f k past small (out_of_space more current d' kept links range free once none_left) =
    no_space d' kept.formatted none_left

-- Writing a byte past the chain of a file, on a formatted disk, gives one of two outcomes. Either
-- the file's chain has grown by different clusters that were free before; then the byte is read back
-- at its offset, every byte of the old chain reads as before, and every other chain is kept with all
-- that is read from it. Or the write answers -FS_DISK_FULL, and no cluster is free.
pub write-Growth :
    {d : Disk} {c : ℕ} {cs : List ℕ} (o v : ℕ)
    → IsFormatted d
    → IsChain d c cs
    → cluster_of d c cs o ≡ chain_end
    → v < 256
    → Growth d c cs o v (cluster_write_8bit d c o v)
write-Growth {d} {c} {cs} o v f k past small =
    rw (write_past o v f k past)
      (grown_write o v f k past small (extend_by-Extension 6 (o / d.cluster_size) c cs f k))
