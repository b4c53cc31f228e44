-- ===== src/Memory/Heap/Inv.antt =====
-- memory/malloc.c: the free blocks of a set-up bin, and what each call does to them.
use almost_os.Prelude.{
  ℕ, ◌+◌, ◌*◌, ◌^◌, ◌≤◌, ◌<◌, ◌≡◌, refl, ap, ◌∙◌, inl, inr, true, Option, none, some, List, [], ◌∷◌,
  length, All, Bytes, arith, Bool-cases, ltb, ◌==◌, ◌||◌,
}
use almost_os.Memory.ByteStack
use almost_os.Memory.ByteStack.{Stack}
use almost_os.Memory.ByteStack.Refine.{IsValid, contents, pop-cons, pop-nil, push-room}
use almost_os.Memory.Heap.{
  HeapBin, init_heap_memory_allocator, block_index, bin_block_count, bin_block_size, address,
  heap_malloc, heap_free,
}

-- A bin that `init_heap_memory_allocator` has set up, with the free block numbers `free`, top first.
pub record IsBin (bin : HeapBin) (free : List ℕ) : Type 0 where
  pub size : bin.block_size ≡ bin_block_size
  pub count : bin.block_count ≡ bin_block_count
  pub fits : bin.buffer_start + 480 ≤ 2 ^ 32
  pub stack : Stack
  pub handle : bin.free_blocks_stack ≡ some stack
  pub valid : IsValid stack
  pub room : stack.buffer_size ≡ bin_block_count
  pub holds : contents stack ≡ free

pub address_lem :
    {bin : HeapBin} {free : List ℕ}
    → IsBin bin free
    → (i : ℕ) → i < 3
    → address bin i ≡ bin.buffer_start + i * 160
address_lem {bin} b i h = rw b.size (omega (arith, b.fits))

index_lem :
    {bin : HeapBin} {free : List ℕ}
    → IsBin bin free
    → (i : ℕ) → i < 3
    → block_index bin (address bin i) ≡ i
index_lem {bin} b i h = rw b.size (omega (arith, b.fits))

-- With a block free, an allocation of up to 128 bytes is given the free block on top.
pub heap_malloc-some :
    {bin : HeapBin} {i : ℕ} {free : List ℕ}
    → IsBin bin (i ∷ free)
    → (size : ℕ) → 0 < size
    → size ≤ bin_block_size
    → i < 3
    → (bin' : HeapBin) × (heap_malloc bin size ≡ (some (address bin i), bin'))
      × IsBin bin' free
      × (bin'.buffer_start ≡ bin.buffer_start)
unfolding heap_malloc
heap_malloc-some {bin} {i} b size positive small h =
    let (s', e, c, v, n) = pop-cons b.stack 0 i _ b.valid b.holds in
    (
      record bin { free_blocks_stack = some s' },
      simp (b.handle, e) (ground (arith, b.size, b.count)),
      record {
        size = b.size;
        count = b.count;
        fits = b.fits;
        stack = s';
        handle = refl;
        valid = v;
        room = n ∙ b.room;
        holds = c;
      },
      refl,
    )

-- Without one it gets NULL.
pub heap_malloc-empty :
    {bin : HeapBin}
    → IsBin bin []
    → (size : ℕ)
    → (bin' : HeapBin) × (heap_malloc bin size ≡ (none, bin'))
      × IsBin bin' []
      × (bin'.buffer_start ≡ bin.buffer_start)
unfolding heap_malloc
heap_malloc-empty {bin} b size = elim (Bool-cases (size == 0 || ltb bin.block_size size)) [
  | inl refused ↦ (bin, ground arith, b, refl)
  | inr asked ↦
      let (s', e, c, v, n) = pop-nil b.stack 0 b.valid b.holds in
      (
        record bin { free_blocks_stack = some s' },
        simp (b.handle, e) (ground arith),
        record {
          size = b.size;
          count = b.count;
          fits = b.fits;
          stack = s';
          handle = refl;
          valid = v;
          room = n ∙ b.room;
          holds = c;
        },
        refl,
      )
]

-- A size of 0, or one that a block does not hold, gets NULL and changes nothing.
pub heap_malloc-refused :
    (bin : HeapBin) (size : ℕ)
    → (size == 0 || ltb bin.block_size size) ≡ true
    → heap_malloc bin size ≡ (none, bin)
unfolding heap_malloc
heap_malloc-refused bin size h = ground arith

-- What an allocation did to a bin.
pub data Outcome (bin : HeapBin) (free : List ℕ) : Option ℕ × HeapBin → Type 0 where
  null :
      (bin' : HeapBin)
      → IsBin bin' free
      → bin'.buffer_start ≡ bin.buffer_start
      → Outcome bin free (none, bin')
  block :
      (i : ℕ) (rest : List ℕ) (bin' : HeapBin)
      → free ≡ i ∷ rest
      → IsBin bin' rest
      → bin'.buffer_start ≡ bin.buffer_start
      → Outcome bin free (some (address bin i), bin')

pub heap_malloc-Outcome :
    {bin : HeapBin} (free : List ℕ) (size : ℕ)
    → IsBin bin free
    → All (λ i. i < 3) free
    → Outcome bin free (heap_malloc bin size)
heap_malloc-Outcome {bin} [] size b small =
    let (bin', e, b', k) = heap_malloc-empty b size in rw e (null bin' b' k)
heap_malloc-Outcome {bin} (i ∷ free) size b small =
    elim (Bool-cases (size == 0 || ltb bin.block_size size)) [
      | inl refused ↦ rw (heap_malloc-refused bin size refused) (null bin b refl)
      | inr asked ↦
          let (bin', e, b', k) =
            heap_malloc-some b size (ground arith) (ground (arith, b.size)) small.0 in
          rw e (block i free bin' refl b' k)
    ]

-- Freeing a block that is out puts its number on top of the free ones.
pub heap_free_lem :
    {bin : HeapBin} {free : List ℕ}
    → IsBin bin free
    → (i : ℕ) → i < 3
    → length free < 3
    → IsBin (heap_free bin (some (address bin i))) (i ∷ free)
unfolding heap_free
heap_free_lem {bin} b i h room =
    let (s', e, c, v, n) = push-room b.stack i b.valid (rw (b.holds, b.room) room) in
    record {
      size = b.size;
      count = b.count;
      fits = b.fits;
      stack = s';
      handle = rw (index_lem b i h, b.handle, e);
      valid = v;
      room = n ∙ b.room;
      holds = c ∙ ap (λ t. i ∷ t) b.holds;
    }

-- Initialisation succeeds, and leaves all three blocks free.
pub init_lem :
    (heap_buffer : ℕ) (handle : Stack) (stack_buffer : Bytes) (old : HeapBin)
    → heap_buffer + 480 ≤ 2 ^ 32
    → (bin : HeapBin) × (init_heap_memory_allocator heap_buffer handle stack_buffer old
        ≡ (true, bin))
      × IsBin bin (2 ∷ 1 ∷ 0 ∷ [])
      × (bin.buffer_start ≡ heap_buffer)
unfolding init_heap_memory_allocator ByteStack.init ByteStack.push
init_lem heap_buffer handle stack_buffer old h = (
  _,
  refl,
  record {
    size = refl;
    count = refl;
    fits = h;
    stack = _;
    handle = refl;
    valid = omega arith;
    room = refl;
    holds = refl;
  },
  refl,
)

pub heap_free-start :
    (bin : HeapBin) (pointer : Option ℕ) → (heap_free bin pointer).buffer_start ≡ bin.buffer_start
unfolding heap_free
heap_free-start bin none = refl
heap_free-start bin (some p) = refl
