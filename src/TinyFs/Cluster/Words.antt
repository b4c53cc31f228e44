-- ===== src/TinyFs/Cluster/Words.antt =====
-- fs/tinyfs/code/cluster_operations.c: cluster_write_16bit and cluster_read_16bit.
use almost_os.Prelude.{
  ℕ, ◌+◌, ◌*◌, ◌/◌, ◌%◌, ◌^◌, ◌<◌, ◌≡◌, ◌≢◌, refl, ap, ◌∙◌, true, false, List, arith, u8, u16, u32,
  ◌==◌, if◌then◌else◌,
}
use almost_os.Prelude.Int.{pos, or}
use almost_os.TinyFs.Disk.{Disk, chain_end, poke}
use almost_os.TinyFs.Cluster.{
  cluster_read_8bit, cluster_write_8bit, cluster_read_16bit, cluster_write_16bit,
}
use almost_os.TinyFs.Cluster.Format.{IsFormatted, poke-IsFormatted}
use almost_os.TinyFs.Cluster.Chain.{
  IsChain, cluster_of, answer, read_at_lem, write_at_lem, within_IsData,
}
use almost_os.TinyFs.Cluster.ReadWrite.{IsChain-poke, reread}

-- A write within the chain, as a change of the image.
abbrev pub poked : Disk → ℕ → List ℕ → ℕ → ℕ → Disk
poked d c cs o v = poke d (cluster_of d c cs o) (o % d.cluster_size) v

module _ {d : Disk} {c : ℕ} {cs : List ℕ} (f : IsFormatted d) (k : IsChain d c cs) (o v : ℕ)
    (ne : cluster_of d c cs o ≢ chain_end) where
  inside : (cluster_of d c cs o == chain_end) ≡ false
  inside = ground arith

  pub IsFormatted-poked : IsFormatted (poked d c cs o v)
  IsFormatted-poked = poke-IsFormatted f (cluster_of d c cs o) (o % d.cluster_size) v

  pub IsChain-poked : IsChain (poked d c cs o v) c cs
  IsChain-poked =
      IsChain-poke f (cluster_of d c cs o) (o % d.cluster_size) v (within_IsData f k o inside)
        (omega (arith, f.size_min)) k

  pub written : cluster_write_8bit d c o v ≡ (pos 0, poked d c cs o v)
  written = write_at_lem f k 7 o v inside

  pub read_poked :
      (o' value : ℕ)
      → v < 256
      → cluster_read_8bit (poked d c cs o v) c o' value
        ≡ (if o' == o then (pos 0, v) else answer d c cs o' value)
  read_poked o' value small =
      read_at_lem IsFormatted-poked IsChain-poked 6 o' value
      ∙ reread o v o' value f k inside (within_IsData f k o inside) small

halves : (value : ℕ) → value < 65536 → u16 (u8 (value / 256) * 256 + u8 value) ≡ value
halves value h = omega arith

pub write_halves :
    (d d₁ d₂ : Disk) (c o value : ℕ)
    → o + 1 < 2 ^ 32
    → cluster_write_8bit d c o (u8 (value / 256)) ≡ (pos 0, d₁)
    → cluster_write_8bit d₁ c (o + 1) (u8 value) ≡ (pos 0, d₂)
    → cluster_write_16bit d c o value ≡ (pos 0, d₂)
unfolding cluster_write_16bit or
write_halves d d₁ d₂ c o value fits first second =
    let place : u32 (o + 1) ≡ o + 1 = omega arith in simp (first, place, second)

pub read_halves :
    (d : Disk) (c o high low value : ℕ)
    → o + 1 < 2 ^ 32
    → value < 65536
    → cluster_read_8bit d c o high ≡ (pos 0, u8 (value / 256))
    → cluster_read_8bit d c (o + 1) low ≡ (pos 0, u8 value)
    → cluster_read_16bit d c o high low ≡ (pos 0, value)
unfolding cluster_read_16bit or
read_halves d c o high low value fits small first second =
    let place : u32 (o + 1) ≡ o + 1 = omega arith in
    simp (first, place, second) (ap (λ t. (pos 0, t)) (halves value small))

-- A 16-bit number written to a file, on a formatted disk and with both of its bytes within the
-- chain, is read back, also where its bytes lie in two clusters.
pub cluster_read_16bit-cluster_write_16bit :
    {d : Disk} {c : ℕ} {cs : List ℕ} (o value high low : ℕ)
    → IsFormatted d
    → IsChain d c cs
    → o + 1 < 2 ^ 32
    → cluster_of d c cs o ≢ chain_end
    → cluster_of d c cs (o + 1) ≢ chain_end
    → value < 65536
    → ((cluster_write_16bit d c o value).0 ≡ pos 0)
      × (cluster_read_16bit (cluster_write_16bit d c o value).1 c o high low ≡ (pos 0, value))
cluster_read_16bit-cluster_write_16bit {d} {c} {cs} o value high low f k fits ne ne' small =
    let h = u8 (value / 256) in
    let l = u8 value in
    let d₁ = poked d c cs o h in
    let f₁ = IsFormatted-poked f k o h ne in
    let k₁ = IsChain-poked f k o h ne in
    let d₂ = poked d₁ c cs (o + 1) l in
    let apart : (o == o + 1) ≡ false = ground arith in
    let same : (o + 1 == o + 1) ≡ true = ground arith in
    let same' : (o == o) ≡ true = ground arith in
    let first : cluster_read_8bit d₂ c o high ≡ (pos 0, h) =
      read_poked f₁ k₁ (o + 1) l ne' o high (omega arith)
      ∙ rw apart (
          reread o h o high f k (inside f k o h ne) (within_IsData f k o (inside f k o h ne))
            (omega arith)
          ∙ rw same' refl) in
    let second : cluster_read_8bit d₂ c (o + 1) low ≡ (pos 0, l) =
      read_poked f₁ k₁ (o + 1) l ne' (o + 1) low (omega arith) ∙ rw same refl in
    let whole : cluster_write_16bit d c o value ≡ (pos 0, d₂) =
      write_halves d d₁ d₂ c o value fits (written f k o h ne) (written f₁ k₁ (o + 1) l ne') in
    (
      ap (λ r. r.0) whole,
      ap (λ r. cluster_read_16bit r.1 c o high low) whole
          ∙ read_halves d₂ c o high low value fits small first second,
    )
