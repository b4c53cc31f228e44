-- ===== src/TinyFs/Rootdir/Window.antt =====
-- fs/tinyfs/code/rootdir_cluster.c: the 16 bytes of a file's entry, while they are written.
use almost_os.Prelude.{
  ℕ, zero, suc, ◌+◌, ◌/◌, ◌%◌, ◌^◌, ◌≤◌, ◌<◌, ◌≡◌, ◌≢◌, refl, sym, ap, ◌∙◌, fun_ext, true, false,
  List, Bytes, store, arith, ltb, leb, u8, u32, ◌==◌, ◌&&◌, if◌then◌else◌, ℕ_discrete,
}
use mathlib.Core.Path.{subst}
use almost_os.Prelude.Int.{ℤ, pos}
use almost_os.TinyFs.Disk.{Disk, chain_end}
use almost_os.TinyFs.Cluster.{
  cluster_read_8bit, cluster_write_8bit, cluster_read_16bit, cluster_write_16bit, write_data_from,
}
use almost_os.TinyFs.Cluster.Format.{IsFormatted, cell}
use almost_os.TinyFs.Cluster.Chain.{IsChain, cluster_of, answer, read_at_lem}
use almost_os.TinyFs.Cluster.Words.{
  poked, IsFormatted-poked, IsChain-poked, written, read_poked, write_halves, read_halves,
}
use almost_os.TinyFs.Cluster.Blocks.{write-next}

-- The 16 bytes from offset `b` of the file with the chain `c ∷ cs` lie within the chain, and read as
-- `m`.
pub record Window (d : Disk) (c : ℕ) (cs : List ℕ) (b : ℕ) (m : Bytes) : Type 0 where
  pub formatted : IsFormatted d
  pub chain : IsChain d c cs
  pub small : b + 16 ≤ 2 ^ 32
  pub within : (j : ℕ) → j < 16 → cluster_of d c cs (b + j) ≢ chain_end
  pub reads : (j value : ℕ) → j < 16 → cluster_read_8bit d c (b + j) value ≡ (pos 0, m j)

-- What the bytes are at first.
abbrev pub old_bytes : Disk → ℕ → List ℕ → ℕ → Bytes
old_bytes d c cs b j = cell d (cluster_of d c cs (b + j)) ((b + j) % d.cluster_size)

pub Window-old_bytes :
    {d : Disk} {c : ℕ} {cs : List ℕ} (b : ℕ)
    → IsFormatted d
    → IsChain d c cs
    → b + 16 ≤ 2 ^ 32
    → ((j : ℕ) → j < 16 → cluster_of d c cs (b + j) ≢ chain_end)
    → Window d c cs b (old_bytes d c cs b)
Window-old_bytes {d} {c} {cs} b f k small within = record {
  formatted = f;
  chain = k;
  small = small;
  within = within;
  reads = λ j value h.
      let inside : (cluster_of d c cs (b + j) == chain_end) ≡ false = ground (arith, within j h) in
      read_at_lem f k 6 (b + j) value ∙ rw inside refl;
}

at_byte :
    (b i j v : ℕ) (old : ℤ × ℕ) (m : Bytes)
    → old ≡ (pos 0, m i)
    → (if b + i == b + j then (pos 0, v) else old) ≡ (pos 0, store m j v i)
at_byte b i j v old m e = elim (ℕ_discrete i j) [
  | yes same ↦
      let here : (b + i == b + j) ≡ true = ground arith in
      let here' : (i == j) ≡ true = ground arith in rw (here, here') refl
  | no ne ↦
      let other : (b + i == b + j) ≡ false = ground arith in
      let other' : (i == j) ≡ false = ground arith in rw (other, other') e
]

module _ {d : Disk} {c : ℕ} {cs : List ℕ} {b : ℕ} {m : Bytes} (w : Window d c cs b m) where
  -- A byte written to the window.
  pub write_byte :
      (j v : ℕ)
      → j < 16
      → v < 256
      → (d' : Disk) × (cluster_write_8bit d c (b + j) v ≡ (pos 0, d'))
        × Window d' c cs b (store m j v)
  write_byte j v h byte =
      let ne = w.within j h in
      (
        poked d c cs (b + j) v,
        written w.formatted w.chain (b + j) v ne,
        record {
          formatted = IsFormatted-poked w.formatted w.chain (b + j) v ne;
          chain = IsChain-poked w.formatted w.chain (b + j) v ne;
          small = w.small;
          within = w.within;
          reads = λ i value k.
              read_poked w.formatted w.chain (b + j) v ne (b + i) value byte
              ∙ at_byte b i j v (answer d c cs (b + i) value) m
                  (sym (read_at_lem w.formatted w.chain 6 (b + i) value) ∙ w.reads i value k);
        },
      )

  pub read_byte : (j value : ℕ) → j < 16 → cluster_read_8bit d c (u32 (b + j)) value ≡ (pos 0, m j)
  read_byte j value h =
      let place : u32 (b + j) ≡ b + j = omega (arith, w.small) in rw place (w.reads j value h)

-- The bytes after a 16-bit number has been written at offset `j`.
abbrev pub store_word : Bytes → ℕ → ℕ → Bytes
store_word m j v = store (store m j (u8 (v / 256))) (j + 1) (u8 v)

pub write_word :
    {d : Disk} {c : ℕ} {cs : List ℕ} {b : ℕ} {m : Bytes}
    → Window d c cs b m
    → (j v : ℕ) → j < 15
    → (d' : Disk) × (cluster_write_16bit d c (b + j) v ≡ (pos 0, d'))
      × Window d' c cs b (store_word m j v)
write_word {d} {c} {cs} {b} {m} w j v h =
    let (d₁, e₁, w₁) = write_byte w j (u8 (v / 256)) (omega arith) (omega arith) in
    let (d₂, e₂, w₂) = write_byte w₁ (j + 1) (u8 v) (omega arith) (omega arith) in
    let place : b + (j + 1) ≡ b + j + 1 = omega arith in
    (d₂, write_halves d d₁ d₂ c (b + j) v (omega (arith, w.small)) e₁ (rw place at e₂), w₂)

pub read_word :
    {d : Disk} {c : ℕ} {cs : List ℕ} {b : ℕ} {m : Bytes}
    → Window d c cs b m
    → (j high low v : ℕ) → j < 15
    → v < 65536
    → m j ≡ u8 (v / 256)
    → m (j + 1) ≡ u8 v
    → cluster_read_16bit d c (u32 (b + j)) high low ≡ (pos 0, v)
read_word {d} {c} {cs} {b} {m} w j high low v h small e e' =
    let start : u32 (b + j) ≡ b + j = omega (arith, w.small) in
    let place : b + (j + 1) ≡ b + j + 1 = omega arith in
    rw start (
      read_halves d c (b + j) high low v (omega (arith, w.small)) small
        (w.reads j high (omega arith) ∙ ap (λ t. (pos 0, t)) e)
        (rw place at (w.reads (j + 1) low (omega arith)) ∙ ap (λ t. (pos 0, t)) e'))

-- `n` bytes of a buffer from offset `i` on, over those of the window.
abbrev pub store_bytes : Bytes → ℕ → ℕ → Bytes → Bytes
store_bytes m i n buffer j = if leb i j && ltb j (i + n) then buffer j else m j

pub write_bytes :
    (n i : ℕ) {d : Disk} {c : ℕ} {cs : List ℕ} {b : ℕ} {m : Bytes} (buffer : Bytes)
    → Window d c cs b m
    → i + n ≤ 16
    → ((j : ℕ) → buffer j < 256)
    → (d' : Disk) × (write_data_from d c b n i buffer (pos 0) ≡ (pos 0, d'))
      × Window d' c cs b (store_bytes m i n buffer)
unfolding write_data_from
write_bytes zero i {d} {c} {cs} {b} {m} buffer w h byte =
    let same : m ≡ store_bytes m i 0 buffer = fun_ext (λ j. ground arith) in
    (d, refl, subst (Window d c cs b) same w)
write_bytes (suc n) i {d} {c} {cs} {b} {m} buffer w h byte =
    let (d₁, e₁, w₁) = write_byte w i (buffer i) (omega arith) (byte i) in
    let (d₂, e₂, w₂) = write_bytes n (i + 1) buffer w₁ (omega arith) byte in
    let same : store_bytes (store m i (buffer i)) (i + 1) n buffer
        ≡ store_bytes m i (suc n) buffer =
      fun_ext (λ j. ground arith) in
    let place : u32 (b + i) ≡ b + i = omega (arith, w.small) in
    (d₂, write-next d d₁ c b n i buffer place e₁ ∙ e₂, subst (Window d₂ c cs b) same w₂)
