-- ===== src/TinyFs/Cluster/Keep.antt =====
-- fs/tinyfs/code/cluster_operations.c: the chains on a disk, and what is read from them, while one
-- of them grows.
use almost_os.Prelude.{
  ℕ, zero, suc, ◌/◌, ◌%◌, ◌≡◌, ◌≢◌, refl, sym, ap, ◌∙◌, List, [], ◌∷◌, ◌++◌, get_or, All, Absent,
  Distinct, arith, ◌==◌, if◌then◌else◌, Bool-cases, inl, inr,
}
use almost_os.Prelude.Int.{pos, negsuc}
use almost_os.TinyFs.Disk.{Disk, chain_end}
use almost_os.TinyFs.Cluster.Format.{IsFormatted, cell, fat}
use almost_os.TinyFs.Cluster.Chain.{Links, IsData, IsChain, cluster_of, answer, within_IsData}
use almost_os.TinyFs.Cluster.ReadWrite.{Apart}
use almost_os.TinyFs.Cluster.Grow.{Kept, Absent-free}

pub All-++ : (P : ℕ → Type 0) (xs ys : List ℕ) → All P xs → All P ys → All P (xs ++ ys)
All-++ P [] ys p q = q
All-++ P (x ∷ xs) ys p q = (p.0, All-++ P xs ys p.1 q)

pub Absent-++ : (x : ℕ) (xs ys : List ℕ) → Absent x xs → Absent x ys → Absent x (xs ++ ys)
Absent-++ x [] ys p q = q
Absent-++ x (y ∷ xs) ys p q = (p.0, Absent-++ x xs ys p.1 q)

-- Every cluster of a chain is in use.
pub Links-used :
    (d : Disk) (c : ℕ) (cs : List ℕ)
    → All (IsData d) (c ∷ cs)
    → Links d c cs
    → All (λ x. fat d x ≢ 0) (c ∷ cs)
Links-used d c [] range links = (λ z. omega (arith, links), tt)
Links-used d c (c' ∷ cs) range links =
    (λ z. omega (arith, links.0, range.1.0.0), Links-used d c' cs range.1 links.1)

pub Distinct-++ :
    (d : Disk) (xs ys : List ℕ)
    → All (λ x. fat d x ≢ 0) xs
    → All (λ x. fat d x ≡ 0) ys
    → Distinct xs
    → Distinct ys
    → Distinct (xs ++ ys)
Distinct-++ d [] ys used free p q = q
Distinct-++ d (x ∷ xs) ys used free p q =
    (Absent-++ x xs ys p.0 (Absent-free d x ys used.0 free), Distinct-++ d xs ys used.1 free p.1 q)

pub Absent-used :
    (d : Disk) (x : ℕ) (ys : List ℕ) → fat d x ≡ 0 → All (λ y. fat d y ≢ 0) ys → Absent x ys
Absent-used d x [] free used = tt
Absent-used d x (y ∷ ys) free used =
    (λ e. used.0 (sym (ap (fat d) e) ∙ free), Absent-used d x ys free used.1)

pub free_apart :
    (d : Disk) (xs ys : List ℕ)
    → All (λ x. fat d x ≡ 0) xs
    → All (λ x. fat d x ≢ 0) ys
    → All (λ x. Absent x ys) xs
free_apart d [] ys free used = tt
free_apart d (x ∷ xs) ys free used =
    (Absent-used d x ys free.0 used, free_apart d xs ys free.1 used)

pub IsData-count :
    (d d' : Disk) (xs : List ℕ)
    → d'.cluster_count ≡ d.cluster_count
    → All (IsData d) xs
    → All (IsData d') xs
IsData-count d d' [] same p = tt
IsData-count d d' (x ∷ xs) same p = ((p.0.0, omega (arith, p.0.1)), IsData-count d d' xs same p.1)

pub get_or-++ :
    (n : ℕ) (xs ys : List ℕ)
    → get_or xs n chain_end ≢ chain_end
    → get_or (xs ++ ys) n chain_end ≡ get_or xs n chain_end
get_or-++ n [] ys ne = absurd (ne refl)
get_or-++ zero (x ∷ xs) ys ne = refl
get_or-++ (suc n) (x ∷ xs) ys ne = get_or-++ n xs ys ne

pub Absent-of_apart : (y : ℕ) (xs ys : List ℕ) → All (λ x. Absent x (y ∷ ys)) xs → Absent y xs
Absent-of_apart y [] ys p = tt
Absent-of_apart y (x ∷ xs) ys p = ((λ e. p.0.0 (sym e)), Absent-of_apart y xs ys p.1)

pub drop_apart :
    (y : ℕ) (xs ys : List ℕ) → All (λ x. Absent x (y ∷ ys)) xs → All (λ x. Absent x ys) xs
drop_apart y [] ys p = tt
drop_apart y (x ∷ xs) ys p = (p.0.1, drop_apart y xs ys p.1)

-- Another chain keeps its links while a chain grows.
pub Links-Kept :
    {d d' : Disk} {chain : List ℕ} (e : ℕ) (es : List ℕ)
    → IsFormatted d
    → Kept d d' chain
    → All (IsData d) (e ∷ es)
    → Links d e es
    → Apart chain (e ∷ es)
    → Links d' e es
Links-Kept {chain = chain} e [] f kept range links apart =
    kept.entries e (omega (arith, f.table_fits, range.0.1)) (λ z. omega (arith, links))
      (Absent-of_apart e chain [] apart)
    ∙ links
Links-Kept {chain = chain} e (e' ∷ es) f kept range links apart = (
  kept.entries e (omega (arith, f.table_fits, range.0.1)) (λ z. omega (arith, links.0, range.1.0.0))
        (Absent-of_apart e chain (e' ∷ es) apart)
      ∙ links.0,
  Links-Kept e' es f kept range.1 links.1 (drop_apart e chain (e' ∷ es) apart),
)

-- The file's chain after its growth.
pub IsChain-Kept :
    {d d' : Disk} {c : ℕ} {cs : List ℕ} (more : List ℕ)
    → IsChain d c cs
    → Kept d d' (c ∷ cs)
    → Links d' c (cs ++ more)
    → All (IsData d) more
    → All (λ x. fat d x ≡ 0) more
    → Distinct more
    → IsChain d' c (cs ++ more)
IsChain-Kept {d} {d'} {c} {cs} more k kept links range free once = record {
  in_range =
      IsData-count d d' (c ∷ (cs ++ more)) kept.count
        (All-++ (IsData d) (c ∷ cs) more k.in_range range);
  links = links;
  distinct =
      Distinct-++ d (c ∷ cs) more (Links-used d c cs k.in_range k.links) free k.distinct once;
}

pub other_kept :
    {d d' : Disk} {e : ℕ} {es chain : List ℕ}
    → IsFormatted d
    → Kept d d' chain
    → IsChain d e es
    → Apart chain (e ∷ es)
    → IsChain d' e es
other_kept {d} {d'} {e} {es} f kept l apart = record {
  in_range = IsData-count d d' (e ∷ es) kept.count l.in_range;
  links = Links-Kept e es f kept l.in_range l.links apart;
  distinct = l.distinct;
}

-- What a read finds in the clusters `e ∷ es` does not change.
pub answer-Kept :
    {d d' : Disk} {e : ℕ} {es chain : List ℕ} (o value : ℕ)
    → IsFormatted d
    → Kept d d' chain
    → IsChain d e es
    → answer d' e es o value ≡ answer d e es o value
answer-Kept {d} {d'} {e} {es} o value f kept l =
    ap
      (λ s.
        if get_or (e ∷ es) (o / s) chain_end == chain_end
        then (negsuc 0, value)
        else (pos 0, cell d' (get_or (e ∷ es) (o / s) chain_end) (o % s)))
      kept.size
    ∙ elim (Bool-cases (cluster_of d e es o == chain_end)) [
      | inl past ↦ rw past refl
      | inr within ↦
          ap (λ b. if cluster_of d e es o == chain_end then (negsuc 0, value) else (pos 0, b))
            (kept.data_cells (cluster_of d e es o) (o % d.cluster_size)
              (λ one. omega (arith, (within_IsData f l o within).0)) (omega (arith, f.size_min)))
    ]

-- What a read finds before the old end of the file does not change.
pub answer_grown :
    {d d' : Disk} {c : ℕ} {cs : List ℕ} (more : List ℕ) (o value : ℕ)
    → IsFormatted d
    → Kept d d' (c ∷ cs)
    → IsChain d c cs
    → cluster_of d c cs o ≢ chain_end
    → answer d' c (cs ++ more) o value ≡ answer d c cs o value
answer_grown {d} {d'} {c} {cs} more o value f kept k ne =
    ap
      (λ s.
        if get_or (c ∷ (cs ++ more)) (o / s) chain_end == chain_end
        then (negsuc 0, value)
        else (pos 0, cell d' (get_or (c ∷ (cs ++ more)) (o / s) chain_end) (o % s)))
      kept.size
    ∙ ap
        (λ t. if t == chain_end then (negsuc 0, value) else (pos 0, cell d' t (o % d.cluster_size)))
        (get_or-++ (o / d.cluster_size) (c ∷ cs) more ne)
    ∙ ap (λ b. if cluster_of d c cs o == chain_end then (negsuc 0, value) else (pos 0, b))
        (kept.data_cells (cluster_of d c cs o) (o % d.cluster_size)
          (λ one. omega (arith, (within_IsData f k o (ground arith)).0))
          (omega (arith, f.size_min)))
