-- ===== src/TinyFs/Cluster/Blocks.antt =====
-- fs/tinyfs/code/cluster_operations.c: cluster_write_data and cluster_read_data.
use almost_os.Prelude.{
  ℕ, zero, suc, ◌+◌, ◌-◌, ◌^◌, ◌≤◌, ◌<◌, ◌≡◌, ◌≢◌, refl, sym, ap, ◌∙◌, fun_ext, true, false, List,
  Bytes, store, arith, ltb, leb, u32, ◌==◌, ◌&&◌, if◌then◌else◌, ℕ_discrete,
}
use almost_os.Prelude.Int.{ℤ, pos, or}
use almost_os.TinyFs.Disk.{Disk, chain_end}
use almost_os.TinyFs.Cluster.{
  cluster_read_8bit, cluster_write_8bit, read_data_from, cluster_read_data, write_data_from,
  cluster_write_data,
}
use almost_os.TinyFs.Cluster.Format.{IsFormatted}
use almost_os.TinyFs.Cluster.Chain.{IsChain, cluster_of, answer, read_at_lem}
use almost_os.TinyFs.Cluster.Words.{poked, IsFormatted-poked, IsChain-poked, written, read_poked}

-- What a read finds after the bytes from `low` up to `high` of a file have become those of a buffer
-- that belongs at offset `o`.
abbrev pub over : Disk → ℕ → List ℕ → ℕ → ℕ → ℕ → Bytes → ℕ → ℕ → ℤ × ℕ
over d c cs o low high buffer o' value =
    if leb low o' && ltb o' high then (pos 0, buffer (o' - o)) else answer d c cs o' value

pub write-next :
    (d p : Disk) (c o n i : ℕ) (buffer : Bytes)
    → u32 (o + i) ≡ o + i
    → cluster_write_8bit d c (o + i) (buffer i) ≡ (pos 0, p)
    → write_data_from d c o (suc n) i buffer (pos 0)
      ≡ write_data_from p c o n (i + 1) buffer (pos 0)
unfolding write_data_from or
write-next d p c o n i buffer place step = simp (place, step)

one_more :
    (o n i : ℕ) (buffer : Bytes) (o' : ℕ) (old : ℤ × ℕ)
    → (if leb (o + (i + 1)) o' && ltb o' (o + (i + 1) + n)
        then (pos 0, buffer (o' - o))
        else if o' == o + i
        then (pos 0, buffer i)
        else old)
      ≡ (if leb (o + i) o' && ltb o' (o + i + suc n) then (pos 0, buffer (o' - o)) else old)
one_more o n i buffer o' old = elim (ℕ_discrete o' (o + i)) [
  | yes e ↦
      let place : o' - o ≡ i = omega arith in
      let test : (o' == o + i) ≡ true = ground arith in
      let after : (leb (o + (i + 1)) o' && ltb o' (o + (i + 1) + n)) ≡ false = ground arith in
      let inside : (leb (o + i) o' && ltb o' (o + i + suc n)) ≡ true = ground arith in
      rw (after, inside, test, place) refl
  | no ne ↦
      let test : (o' == o + i) ≡ false = ground arith in
      let same : (leb (o + (i + 1)) o' && ltb o' (o + (i + 1) + n))
          ≡ (leb (o + i) o' && ltb o' (o + i + suc n)) =
        ground arith in
      rw (test, same) refl
]

nothing : (o i : ℕ) (o' : ℕ) → (leb (o + i) o' && ltb o' (o + i + 0)) ≡ false
nothing o i o' = ground arith

over-poked :
    {d : Disk} {c : ℕ} {cs : List ℕ} (o n i : ℕ) (buffer : Bytes) (o' value : ℕ)
    → IsFormatted d
    → IsChain d c cs
    → cluster_of d c cs (o + i) ≢ chain_end
    → buffer i < 256
    → over (poked d c cs (o + i) (buffer i)) c cs o (o + (i + 1)) (o + (i + 1) + n) buffer o' value
      ≡ over d c cs o (o + i) (o + i + suc n) buffer o' value
over-poked {d} {c} {cs} o n i buffer o' value f k ne small =
    ap
      (λ t.
        if leb (o + (i + 1)) o' && ltb o' (o + (i + 1) + n) then (pos 0, buffer (o' - o)) else t)
      (sym (
          read_at_lem (IsFormatted-poked f k (o + i) (buffer i) ne)
            (IsChain-poked f k (o + i) (buffer i) ne) 6 o' value)
        ∙ read_poked f k (o + i) (buffer i) ne o' value small)
    ∙ one_more o n i buffer o' (answer d c cs o' value)

-- The loop of `cluster_write_data` within the chain.
write_data_from_lem :
    (n i : ℕ) {d : Disk} {c : ℕ} {cs : List ℕ} (o : ℕ) (buffer : Bytes)
    → IsFormatted d
    → IsChain d c cs
    → o + i + n ≤ 2 ^ 32
    → ((j : ℕ) → i ≤ j → j < i + n → cluster_of d c cs (o + j) ≢ chain_end)
    → ((j : ℕ) → buffer j < 256)
    → (d' : Disk) × (write_data_from d c o n i buffer (pos 0) ≡ (pos 0, d'))
      × IsFormatted d'
      × IsChain d' c cs
      × ((o' value : ℕ)
          → cluster_read_8bit d' c o' value ≡ over d c cs o (o + i) (o + i + n) buffer o' value)
unfolding write_data_from
write_data_from_lem zero i {d} {c} {cs} o buffer f k fits within small = (
  d,
  refl,
  f,
  k,
  λ o' value. read_at_lem f k 6 o' value ∙ let none_left = nothing o i o' in rw none_left refl,
)
write_data_from_lem (suc n) i {d} {c} {cs} o buffer f k fits within small =
    let place : u32 (o + i) ≡ o + i = omega arith in
    let ne = within i (omega arith) (omega arith) in
    let (d', e, f', k', reads) =
      write_data_from_lem n (i + 1) o buffer (IsFormatted-poked f k (o + i) (buffer i) ne)
        (IsChain-poked f k (o + i) (buffer i) ne) (omega arith)
        (λ j a b. within j (omega arith) (omega arith)) small in
    (
      d',
      write-next d (poked d c cs (o + i) (buffer i)) c o n i buffer place
            (written f k (o + i) (buffer i) ne)
          ∙ e,
      f',
      k',
      λ o' value. reads o' value ∙ over-poked o n i buffer o' value f k ne (small i),
    )

pub read_data_from_lem :
    (n i : ℕ) (d : Disk) (c o : ℕ) (source buffer : Bytes)
    → o + i + n ≤ 2 ^ 32
    → ((j value : ℕ) → i ≤ j → j < i + n → cluster_read_8bit d c (o + j) value ≡ (pos 0, source j))
    → read_data_from d c o n i buffer (pos 0)
      ≡ (pos 0, λ j. if leb i j && ltb j (i + n) then source j else buffer j)
unfolding read_data_from or
read_data_from_lem zero i d c o source buffer fits reads =
    ap (λ b. (pos 0, b)) (fun_ext (λ j. ground arith))
read_data_from_lem (suc n) i d c o source buffer fits reads =
    let place : u32 (o + i) ≡ o + i = omega arith in
    let here = reads i (buffer i) (omega arith) (omega arith) in
    simp (place, here)
      (read_data_from_lem n (i + 1) d c o source (store buffer i (source i)) (omega arith)
          (λ j value a b. reads j value (omega arith) (omega arith))
        ∙ ap (λ b. (pos 0, b)) (fun_ext (λ j. ground arith)))

in_range :
    (d : Disk) (c : ℕ) (cs : List ℕ) (o n j value : ℕ) (buffer : Bytes)
    → j < n
    → over d c cs o (o + 0) (o + 0 + n) buffer (o + j) value ≡ (pos 0, buffer j)
in_range d c cs o n j value buffer h =
    let place : o + j - o ≡ j = omega arith in
    let test : (leb (o + 0) (o + j) && ltb (o + j) (o + 0 + n)) ≡ true = ground arith in
    rw (test, place) refl

-- On a formatted disk, `n` bytes written by `cluster_write_data` to offsets of a file that lie
-- within its chain are read back by `cluster_read_data`; both answer 0, the bytes of the target
-- buffer behind the `n` first stay, and the disk stays formatted and keeps the chain.
pub cluster_read_data-cluster_write_data :
    {d : Disk} {c : ℕ} {cs : List ℕ} (o n : ℕ) (source target : Bytes)
    → IsFormatted d
    → IsChain d c cs
    → o + n ≤ 2 ^ 32
    → ((j : ℕ) → j < n → cluster_of d c cs (o + j) ≢ chain_end)
    → ((j : ℕ) → source j < 256)
    → (d' : Disk) × (cluster_write_data d c o source n ≡ (pos 0, d'))
      × IsFormatted d'
      × IsChain d' c cs
      × (cluster_read_data d' c o target n ≡ (pos 0, λ j. if ltb j n then source j else target j))
cluster_read_data-cluster_write_data {d} {c} {cs} o n source target f k fits within small =
    let (d', e, f', k', reads) =
      write_data_from_lem n 0 o source f k (omega arith) (λ j a b. within j (omega arith)) small in
    (
      d',
      e,
      f',
      k',
      read_data_from_lem n 0 d' c o source target (omega arith)
            (λ j value a b. reads (o + j) value ∙ in_range d c cs o n j value source (omega arith))
          ∙ ap (λ b. (pos 0, b)) (fun_ext (λ j. ground arith)),
    )
