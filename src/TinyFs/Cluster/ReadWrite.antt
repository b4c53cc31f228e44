-- ===== src/TinyFs/Cluster/ReadWrite.antt =====
-- fs/tinyfs/code/cluster_operations.c: a byte written within the chain of a file.
use almost_os.Prelude.{
  ℕ, zero, suc, ◌*◌, ◌/◌, ◌%◌, ◌<◌, ◌≡◌, ◌≢◌, refl, sym, ap, ◌∙◌, true, false, List, [], ◌∷◌,
  get_or, All, Absent, Distinct, arith, u8, ◌==◌, if◌then◌else◌, ℕ_discrete,
}
use native.Mathlib.Nat.{div-add-mod}
use almost_os.Prelude.Int.{pos, negsuc}
use almost_os.TinyFs.Disk.{Disk, chain_end, poke}
use almost_os.TinyFs.Cluster.{cluster_read_8bit, cluster_write_8bit}
use almost_os.TinyFs.Cluster.Format.{
  IsFormatted, fat, cell-poke_self, cell-poke_ne, poke-IsFormatted,
}
use almost_os.TinyFs.Cluster.Chain.{
  Links, IsData, IsChain, cluster_of, answer, read_at_lem, write_at_lem, within_IsData,
}

-- Writing to a data cluster leaves the table alone.
pub fat-poke :
    {d : Disk} (f : IsFormatted d) (t o v c : ℕ)
    → IsData d t
    → o < d.cluster_size
    → c < d.cluster_size
    → fat (poke d t o v) c ≡ fat d c
fat-poke f t o v c range h k = cell-poke_ne f t o v 1 c range.1 h k (λ p q. omega arith)

pub Links-poke :
    {d : Disk} (f : IsFormatted d) (t o v c : ℕ) (cs : List ℕ)
    → IsData d t
    → o < d.cluster_size
    → All (IsData d) (c ∷ cs)
    → Links d c cs
    → Links (poke d t o v) c cs
Links-poke f t o v c [] at h range links =
    fat-poke f t o v c at h (omega (arith, f.table_fits, range.0.1)) ∙ links
Links-poke f t o v c (c' ∷ cs) at h range links = (
  fat-poke f t o v c at h (omega (arith, f.table_fits, range.0.1)) ∙ links.0,
  Links-poke f t o v c' cs at h range.1 links.1,
)

pub IsChain-poke :
    {d : Disk} {c : ℕ} {cs : List ℕ} (f : IsFormatted d) (t o v : ℕ)
    → IsData d t
    → o < d.cluster_size
    → IsChain d c cs
    → IsChain (poke d t o v) c cs
IsChain-poke {c = c} {cs = cs} f t o v at h k = record {
  in_range = k.in_range;
  links = Links-poke f t o v c cs at h k.in_range k.links;
  distinct = k.distinct;
}

get_or-Absent : (x n : ℕ) (xs : List ℕ) → Absent x xs → x ≢ chain_end → get_or xs n chain_end ≢ x
get_or-Absent x n [] h ne e = ne (sym e)
get_or-Absent x zero (y ∷ xs) h ne e = h.0 (sym e)
get_or-Absent x (suc n) (y ∷ xs) h ne e = get_or-Absent x n xs h.1 ne e

-- In a list without repetition an element has one index.
get_or-injective :
    (m n : ℕ) (xs : List ℕ)
    → Distinct xs
    → get_or xs m chain_end ≢ chain_end
    → get_or xs m chain_end ≡ get_or xs n chain_end
    → m ≡ n
get_or-injective m n [] h ne e = absurd (ne refl)
get_or-injective zero zero (x ∷ xs) h ne e = refl
get_or-injective zero (suc n) (x ∷ xs) h ne e = absurd (get_or-Absent x n xs h.0 ne (sym e))
get_or-injective (suc m) zero (x ∷ xs) h ne e =
    absurd (get_or-Absent x m xs h.0 (λ p. ne (e ∙ p)) e)
get_or-injective (suc m) (suc n) (x ∷ xs) h ne e = ap suc (get_or-injective m n xs h.1 ne e)

-- Two offsets of a file lie at one place of the image only if they are equal.
same_offset :
    {d : Disk} {c : ℕ} {cs : List ℕ} (k : IsChain d c cs) (o o' : ℕ)
    → (cluster_of d c cs o == chain_end) ≡ false
    → cluster_of d c cs o' ≡ cluster_of d c cs o
    → o' % d.cluster_size ≡ o % d.cluster_size
    → o' ≡ o
same_offset {d} {c} {cs} k o o' within e r =
    let ne : cluster_of d c cs o ≢ chain_end = λ p. ground arith in
    let q : o / d.cluster_size ≡ o' / d.cluster_size =
      get_or-injective (o / d.cluster_size) (o' / d.cluster_size) (c ∷ cs) k.distinct ne (sym e) in
    omega (
      arith,
      div-add-mod o d.cluster_size,
      div-add-mod o' d.cluster_size,
      ap (λ t. d.cluster_size * t) q,
    )

-- The byte at offset `o'` after a write at offset `o`.
pub reread :
    {d : Disk} {c : ℕ} {cs : List ℕ} (o v o' value : ℕ)
    → IsFormatted d
    → IsChain d c cs
    → (cluster_of d c cs o == chain_end) ≡ false
    → IsData d (cluster_of d c cs o)
    → v < 256
    → answer (poke d (cluster_of d c cs o) (o % d.cluster_size) v) c cs o' value
      ≡ (if o' == o then (pos 0, v) else answer d c cs o' value)
reread {d} {c} {cs} o v o' value f k within at small = elim (ℕ_discrete o' o) [
  | yes e ↦
      let test : (o' == o) ≡ true = ground arith in
      let byte : u8 v ≡ v = omega arith in
      rw (test, e, within)
        (ap (λ t. (pos 0, t))
          (cell-poke_self f (cluster_of d c cs o) (o % d.cluster_size) v at.1
              (omega (arith, f.size_min))
            ∙ byte))
  | no ne ↦
      let test : (o' == o) ≡ false = ground arith in
      rw test (
        ap (λ t. if cluster_of d c cs o' == chain_end then (negsuc 0, value) else (pos 0, t))
          (cell-poke_ne f (cluster_of d c cs o) (o % d.cluster_size) v (cluster_of d c cs o')
            (o' % d.cluster_size) at.1 (omega (arith, f.size_min)) (omega (arith, f.size_min))
            (λ p q. ne (same_offset k o o' within p q))))
]

-- On a formatted disk, writing a byte at an offset within the chain of a file answers 0, and keeps
-- the disk formatted and the chain. The byte is read back at its offset, and a read of the file at
-- any other offset gives what it gave.
pub read-write :
    {d : Disk} {c : ℕ} {cs : List ℕ} (o v : ℕ)
    → IsFormatted d
    → IsChain d c cs
    → cluster_of d c cs o ≢ chain_end
    → v < 256
    → let d' = (cluster_write_8bit d c o v).1 in
      ((cluster_write_8bit d c o v).0 ≡ pos 0)
      × IsFormatted d'
      × IsChain d' c cs
      × ((o' value : ℕ)
          → cluster_read_8bit d' c o' value
            ≡ (if o' == o then (pos 0, v) else cluster_read_8bit d c o' value))
read-write {d} {c} {cs} o v f k ne small =
    let within : (cluster_of d c cs o == chain_end) ≡ false = ground arith in
    let t = cluster_of d c cs o in
    let r = o % d.cluster_size in
    let at : IsData d t = within_IsData f k o within in
    let inside : r < d.cluster_size = omega (arith, f.size_min) in
    let f' = poke-IsFormatted f t r v in
    let k' = IsChain-poke f t r v at inside k in
    rw (write_at_lem f k 7 o v within) (
      refl,
      f',
      k',
      λ o' value.
          rw (read_at_lem f k 6 o' value)
            (read_at_lem f' k' 6 o' value ∙ reread o v o' value f k within at small),
    )

-- No cluster of one file is a cluster of the other.
abbrev pub Apart : List ℕ → List ℕ → Type 0
Apart xs ys = All (λ x. Absent x ys) xs

Apart-at :
    (n m : ℕ) (xs ys : List ℕ)
    → Apart xs ys
    → get_or xs n chain_end ≢ chain_end
    → get_or ys m chain_end ≢ get_or xs n chain_end
Apart-at n m [] ys h ne = absurd (ne refl)
Apart-at zero m (x ∷ xs) ys h ne = get_or-Absent x m ys h.0 ne
Apart-at (suc n) m (x ∷ xs) ys h ne = Apart-at n m xs ys h.1 ne

-- On a formatted disk, writing at an offset within the chain of a file keeps every other chain
-- that shares no cluster with it, and all that is read from it.
pub write-other :
    {d : Disk} {c e : ℕ} {cs es : List ℕ} (o v : ℕ)
    → IsFormatted d
    → IsChain d c cs
    → IsChain d e es
    → Apart (c ∷ cs) (e ∷ es)
    → cluster_of d c cs o ≢ chain_end
    → let d' = (cluster_write_8bit d c o v).1 in
      IsChain d' e es
      × ((o' value : ℕ) → cluster_read_8bit d' e o' value ≡ cluster_read_8bit d e o' value)
write-other {d} {c} {e} {cs} {es} o v f k l apart ne =
    let within : (cluster_of d c cs o == chain_end) ≡ false = ground arith in
    let t = cluster_of d c cs o in
    let r = o % d.cluster_size in
    let at : IsData d t = within_IsData f k o within in
    let inside : r < d.cluster_size = omega (arith, f.size_min) in
    let f' = poke-IsFormatted f t r v in
    let l' = IsChain-poke f t r v at inside l in
    rw (write_at_lem f k 7 o v within) (
      l',
      λ o' value. rw (read_at_lem f l 6 o' value) (
          read_at_lem f' l' 6 o' value
          ∙ ap (λ b. if cluster_of d e es o' == chain_end then (negsuc 0, value) else (pos 0, b))
              (cell-poke_ne f t r v (cluster_of d e es o') (o' % d.cluster_size) at.1 inside
                (omega (arith, f.size_min))
                (λ p q.
                  Apart-at (o / d.cluster_size) (o' / d.cluster_size) (c ∷ cs) (e ∷ es) apart ne
                    p))),
    )
