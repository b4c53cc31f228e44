-- ===== src/Memory/Heap.antt =====
-- memory/malloc.c: a pool of equal blocks, handed out from a stack of free block numbers.
pub mod Inv
pub mod Blocks
pub mod Safety
use almost_os.Prelude.{
  ℕ, zero, suc, ◌+◌, ◌-◌, ◌*◌, ◌/◌, ◌%◌, ◌^◌, Bool, true, false, Option, none, some, Bytes, ltb,
  leb, ◌==◌, if◌then◌else◌, u32,
}
use almost_os.Memory.ByteStack
use almost_os.Memory.ByteStack.{Stack}

-- `struct heap_bin_contex`; `buffer_start` is an address.
pub record HeapBin : Type 0 where
  pub block_size : ℕ
  pub block_count : ℕ
  pub buffer_size : ℕ
  pub buffer_start : ℕ
  pub free_blocks_stack : Option Stack

abbrev pub bin_block_count : ℕ
bin_block_count = 3

abbrev pub bin_block_size : ℕ
bin_block_size = 128

abbrev pub bin_red_zone_size : ℕ
bin_red_zone_size = 32

-- `for (i …) if (!stack_push(&free_blocks_stack, i)) return false;`, `n` rounds from `i`.
unfoldable pub populate : ℕ → ℕ → Option Stack → Bool × Option Stack
populate zero i h = (true, h)
populate (suc n) i h =
    let (done, h') = ByteStack.push h i in
    let rest = populate n (i + 1) h' in if done then rest else (false, h')

-- `init_heap_memory_allocator`. The static objects are arguments: where `heap_buffer` lies, the
-- stack's handle and its buffer.
unfoldable pub init_heap_memory_allocator : ℕ → Stack → Bytes → HeapBin → Bool × HeapBin
unfolding populate
init_heap_memory_allocator heap_buffer handle stack_buffer bin =
    if ltb bin_buffer_size (bin_block_count * (bin_block_size + bin_red_zone_size))
    then (false, sized)
    else if fresh.0
    then if filled.0 then (true, ready) else (false, sized)
    else (false, sized)
  where
    bin_buffer_size : ℕ
    bin_buffer_size = bin_block_count * (bin_block_size + bin_red_zone_size)

    sized : HeapBin
    sized = record {
      block_size = bin_block_size;
      block_count = bin_block_count;
      buffer_size = bin_buffer_size;
      buffer_start = heap_buffer;
      free_blocks_stack = bin.free_blocks_stack;
    }

    fresh : Bool × Option Stack
    fresh = ByteStack.init (some handle) (some stack_buffer) bin_block_count

    filled : Bool × Option Stack
    filled = populate bin_block_count 0 fresh.1

    ready : HeapBin
    ready = record sized { free_blocks_stack = filled.1 }

-- `buffer_start + index * (block_size + BIN_RED_ZONE_SIZE)`
abbrev pub address : HeapBin → ℕ → ℕ
address bin index = u32 (bin.buffer_start + u32 (index * (bin.block_size + bin_red_zone_size)))

-- The byte that a pop left in `index`, which was 0.
abbrev pub popped : Option ℕ → ℕ
popped none = 0
popped (some x) = x

-- `heap_malloc`; `none` is NULL.
unfoldable pub heap_malloc : HeapBin → ℕ → Option ℕ × HeapBin
heap_malloc bin size =
    if size == 0
    then (none, bin)
    else if ltb bin.block_size size
    then (none, bin)
    else let (done, out, h) = ByteStack.pop bin.free_blocks_stack (some 0) in
      let index = popped out in
      let bin' = record bin { free_blocks_stack = h } in
      if done
      then if leb bin.block_count index then (none, bin') else (some (address bin index), bin')
      else (none, bin')

-- The `u8` index of the block that a pointer lies in.
abbrev pub block_index : HeapBin → ℕ → ℕ
block_index bin pointer =
    u32 (pointer + 2 ^ 32 - bin.buffer_start) / (bin.block_size + bin_red_zone_size) % 256

-- `heap_free`; the outcome of the push is only logged.
unfoldable pub heap_free : HeapBin → Option ℕ → HeapBin
heap_free bin none = bin
heap_free bin (some pointer) = record bin {
  free_blocks_stack = (ByteStack.push bin.free_blocks_stack (block_index bin pointer)).1;
}
