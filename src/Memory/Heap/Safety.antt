-- ===== src/Memory/Heap/Safety.antt =====
-- memory/malloc.c from its start on.
use almost_os.Prelude.{
  ℕ, ◌+◌, ◌^◌, ◌≤◌, ◌<◌, ◌≡◌, refl, ap, some, List, [], ◌∷◌, length, All, Distinct-of_count, arith,
  Bytes, length-map,
}
use almost_os.Memory.Heap.{HeapBin, init_heap_memory_allocator, address, heap_malloc}
use almost_os.Memory.ByteStack.{Stack}
use almost_os.Memory.Heap.Inv.{heap_malloc-some, init_lem}
use almost_os.Memory.Heap.Blocks.{
  Session, Reach, block, AllApart, IsHeld, Inv, free-small, used-small, Reach-Inv, AllApart-blocks,
  In-blocks,
}

-- What the client finds after `init_heap_memory_allocator`.
start_Inv :
    (heap_buffer : ℕ) (handle : Stack) (stack_buffer : Bytes) (old : HeapBin)
    → heap_buffer + 480 ≤ 2 ^ 32
    → Inv heap_buffer (record {
      bin = (init_heap_memory_allocator heap_buffer handle stack_buffer old).1;
      live = [];
    })
start_Inv heap_buffer handle stack_buffer old fits =
    let (bin, e, b, k) = init_lem heap_buffer handle stack_buffer old fits in
    rw e (
      [],
      2 ∷ 1 ∷ 0 ∷ [],
      record { bin = b; start_eq = k; live_eq = refl; total = refl; once = λ x. ground arith },
    )

-- After `init_heap_memory_allocator` at a buffer that does not wrap round the address space, and
-- any history of a client that frees only pointers that it holds: the pointers it holds lie in the
-- buffer, and no two of their blocks share a byte.
pub Reach-AllApart :
    (heap_buffer : ℕ) (handle : Stack) (stack_buffer : Bytes) (old : HeapBin) (t : Session)
    → heap_buffer + 480 ≤ 2 ^ 32
    → Reach
        (record {
          bin = (init_heap_memory_allocator heap_buffer handle stack_buffer old).1;
          live = [];
        })
        t
    → AllApart t.live × All (λ p. (heap_buffer ≤ p) × (p + 160 ≤ heap_buffer + 480)) t.live
Reach-AllApart heap_buffer handle stack_buffer old t fits r =
    let (used, free, v) = Reach-Inv (start_Inv heap_buffer handle stack_buffer old fits) r in
    rw v.live_eq (
      AllApart-blocks heap_buffer used (Distinct-of_count used (λ x. ground (arith, v.once x))),
      In-blocks heap_buffer used (used-small v),
    )

serve :
    {start : ℕ} {used free : List ℕ} {s : Session} (size : ℕ)
    → IsHeld start used free s
    → 0 < size
    → size ≤ 128
    → length s.live < 3
    → (p : ℕ) × (bin : HeapBin) × (heap_malloc s.bin size ≡ (some p, bin))
serve {start = start} {used = used} {free = []} size v positive small few =
    absurd (omega (arith, ap length v.live_eq, length-map used (block start), v.total))
serve {free = i ∷ free} {s = s} size v positive small few =
    let (bin, g, b, k) = heap_malloc-some v.bin size positive small (free-small v).0 in
    (address s.bin i, bin, g)

-- After any such history a request of 1 to 128 bytes is granted while fewer than three blocks are
-- held.
pub Reach-granted :
    (heap_buffer : ℕ) (handle : Stack) (stack_buffer : Bytes) (old : HeapBin) (t : Session)
    (size : ℕ)
    → heap_buffer + 480 ≤ 2 ^ 32
    → Reach
        (record {
          bin = (init_heap_memory_allocator heap_buffer handle stack_buffer old).1;
          live = [];
        })
        t
    → 0 < size
    → size ≤ 128
    → length t.live < 3
    → (p : ℕ) × (bin : HeapBin) × (heap_malloc t.bin size ≡ (some p, bin))
Reach-granted heap_buffer handle stack_buffer old t size fits r positive small few =
    let (used, free, v) = Reach-Inv (start_Inv heap_buffer handle stack_buffer old fits) r in
    serve size v positive small few
