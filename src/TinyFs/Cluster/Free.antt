-- ===== src/TinyFs/Cluster/Free.antt =====
-- fs/tinyfs/code/cluster_operations.c: get_cluster_chain_size and free_clusters.
use almost_os.Prelude.{
  ℕ, zero, suc, ◌+◌, ◌≤◌, ◌<◌, ◌≡◌, refl, ap, ◌∙◌, true, false, some, List, [], ◌∷◌, length, All,
  Absent, Distinct, arith, ◌==◌, ◌||◌, if◌then◌else◌, ℕ_discrete,
}
use almost_os.Prelude.Int.{pos}
use almost_os.TinyFs.Disk.{Disk, chain_end}
use almost_os.TinyFs.Cluster.{chain_size_from, get_cluster_chain_size, fat_get_linked_cluster}
use almost_os.TinyFs.Cluster.Format.{IsFormatted, fat_get_linked_cluster_lem}
use almost_os.TinyFs.Cluster.Chain.{Links, IsData, IsChain}

-- The list without `x`.
abbrev without : ℕ → List ℕ → List ℕ
without x [] = []
without x (y ∷ ys) = if y == x then without x ys else y ∷ without x ys

without-Absent : (x : ℕ) (ys : List ℕ) → Absent x ys → without x ys ≡ ys
without-Absent x [] h = refl
without-Absent x (y ∷ ys) h =
    let test : (y == x) ≡ false = ground (arith, h.0) in
    rw test (ap (λ t. y ∷ t) (without-Absent x ys h.1))

length-without : (x : ℕ) (ys : List ℕ) → Distinct ys → length ys ≤ suc (length (without x ys))
length-without x [] h = omega arith
length-without x (y ∷ ys) h = elim (ℕ_discrete y x) [
  | yes e ↦
      let test : (y == x) ≡ true = ground arith in
      let same : without x ys ≡ ys = without-Absent x ys (rw (← e) h.0) in
      rw (test, same) (omega arith)
  | no ne ↦
      let test : (y == x) ≡ false = ground arith in rw test (omega (arith, length-without x ys h.1))
]

Absent-without : (x z : ℕ) (ys : List ℕ) → Absent z ys → Absent z (without x ys)
Absent-without x z [] h = tt
Absent-without x z (y ∷ ys) h = elim (ℕ_discrete y x) [
  | yes e ↦ let test : (y == x) ≡ true = ground arith in rw test (Absent-without x z ys h.1)
  | no ne ↦ let test : (y == x) ≡ false = ground arith in rw test (h.0, Absent-without x z ys h.1)
]

Distinct-without : (x : ℕ) (ys : List ℕ) → Distinct ys → Distinct (without x ys)
Distinct-without x [] h = tt
Distinct-without x (y ∷ ys) h = elim (ℕ_discrete y x) [
  | yes e ↦ let test : (y == x) ≡ true = ground arith in rw test (Distinct-without x ys h.1)
  | no ne ↦
      let test : (y == x) ≡ false = ground arith in
      rw test (Absent-without x y ys h.0, Distinct-without x ys h.1)
]

below-without : (n : ℕ) (ys : List ℕ) → All (λ y. y < suc n) ys → All (λ y. y < n) (without n ys)
below-without n [] h = tt
below-without n (y ∷ ys) h = elim (ℕ_discrete y n) [
  | yes e ↦ let test : (y == n) ≡ true = ground arith in rw test (below-without n ys h.1)
  | no ne ↦
      let test : (y == n) ≡ false = ground arith in
      rw test (omega (arith, h.0), below-without n ys h.1)
]

-- A list of different numbers below `n` has at most `n` of them.
length_le : (n : ℕ) (xs : List ℕ) → Distinct xs → All (λ x. x < n) xs → length xs ≤ n
length_le zero [] once below = omega arith
length_le zero (x ∷ xs) once below = absurd (omega (arith, below.0))
length_le (suc n) xs once below = omega (
  arith,
  length-without n xs once,
  length_le n (without n xs) (Distinct-without n xs once) (below-without n xs below),
)

small_clusters :
    (d : Disk) (xs : List ℕ) → IsFormatted d → All (IsData d) xs → All (λ x. x < 254) xs
small_clusters d [] f h = tt
small_clusters d (x ∷ xs) f h = (omega (arith, h.0.1, f.count_max), small_clusters d xs f h.1)

-- A chain is shorter than the fuel of the walks.
pub IsChain-length :
    {d : Disk} {c : ℕ} {cs : List ℕ} → IsFormatted d → IsChain d c cs → length cs < 255
IsChain-length {d} {c} {cs} f k =
    omega (arith, length_le 254 (c ∷ cs) k.distinct (small_clusters d (c ∷ cs) f k.in_range))

chain_size_from_lem :
    (fuel : ℕ) {d : Disk} (c count : ℕ) (cs : List ℕ)
    → IsFormatted d
    → All (IsData d) (c ∷ cs)
    → Links d c cs
    → length cs < fuel
    → chain_size_from fuel d c count ≡ some (pos (count + (length cs + 1)))
unfolding chain_size_from
chain_size_from_lem zero c count cs f range links enough = absurd (omega arith)
chain_size_from_lem (suc fuel) {d} c count [] f range links enough =
    let link : fat_get_linked_cluster d c ≡ chain_end =
      fat_get_linked_cluster_lem f c (omega (arith, range.0.0)) range.0.1 ∙ links in
    rw link (ap (λ n. some (pos n)) (omega arith))
chain_size_from_lem (suc fuel) {d} c count (c' ∷ cs) f range links enough =
    let link : fat_get_linked_cluster d c ≡ c' =
      fat_get_linked_cluster_lem f c (omega (arith, range.0.0)) range.0.1 ∙ links.0 in
    let inside : (c' == chain_end) ≡ false = ground (arith, range.1.0.1, f.count_max) in
    rw (link, inside)
      (chain_size_from_lem fuel c' (count + 1) cs f range.1 links.1 (omega arith)
        ∙ ap (λ n. some (pos n)) (omega arith))

-- On a formatted disk `get_cluster_chain_size` comes to an end on every chain, with the number of
-- its clusters.
pub get_cluster_chain_size_lem :
    {d : Disk} {c : ℕ} {cs : List ℕ}
    → IsFormatted d
    → IsChain d c cs
    → get_cluster_chain_size d c ≡ some (pos (length (c ∷ cs)))
unfolding get_cluster_chain_size
get_cluster_chain_size_lem {d} {c} {cs} f k =
    let inside : (c == 0 || c == chain_end) ≡ false =
      ground (arith, k.in_range.0.0, k.in_range.0.1, f.count_max) in
    rw inside (
      chain_size_from_lem 256 c 0 cs f k.in_range k.links (omega (arith, IsChain-length f k))
      ∙ ap (λ n. some (pos n)) (omega arith))
