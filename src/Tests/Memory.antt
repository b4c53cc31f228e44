-- ===== src/Tests/Memory.antt =====
-- memory/stack.c and memory/malloc.c on concrete buffers.
use almost_os.Prelude.{ℕ, ◌+◌, ◌≡◌, refl, none, some, List, [], ◌∷◌, of_list, arith, All, ◌≤◌}
use almost_os.Memory.ByteStack.{Stack, init, push, pop}
use almost_os.Memory.ByteStack.Lifo.{Op, push_op, pop_op, run}
use almost_os.Memory.ByteStack.Refine.{session, session_refines, contents}
use almost_os.Memory.Heap.{HeapBin, init_heap_memory_allocator, populate, heap_malloc}
use almost_os.Memory.Heap.Blocks.{Session, Reach, here, next, grant, AllApart}
use almost_os.Memory.Heap.Safety.{Reach-AllApart, Reach-granted}

-- A stack of two bytes that holds one.
abbrev one_byte : Stack
one_byte = record { buffer_size = 2; buffer = of_list (7 ∷ []); stack_pointer = 1 }

-- A push that fits, one that does not, and three pops.
abbrev calls : List Op
calls = push_op 5 ∷ push_op 6 ∷ pop_op ∷ pop_op ∷ pop_op ∷ []

session_refines_example : session (some one_byte) calls ≡ run 2 (contents one_byte) calls
session_refines_example = session_refines calls one_byte (record { pointer_in = omega arith })

abbrev empty_handle : Stack
empty_handle = record { buffer_size = 0; buffer = of_list []; stack_pointer = 0 }

abbrev zero_bin : HeapBin
zero_bin = record {
  block_size = 0;
  block_count = 0;
  buffer_size = 0;
  buffer_start = 0;
  free_blocks_stack = none;
}

abbrev fresh : Session
fresh = record {
  bin = (init_heap_memory_allocator 4096 empty_handle (of_list []) zero_bin).1;
  live = [];
}

abbrev taken_one : HeapBin
taken_one = (heap_malloc fresh.bin 10).1

abbrev taken_two : HeapBin
taken_two = (heap_malloc taken_one 128).1

abbrev two_held : Session
two_held = record { bin = taken_two; live = 4256 ∷ 4416 ∷ [] }

two_grants : Reach fresh two_held
unfolding init_heap_memory_allocator populate heap_malloc init push pop
two_grants = next (next here (grant 10 4416 taken_one refl)) (grant 128 4256 taken_two refl)

Reach-AllApart_example :
    AllApart (4256 ∷ 4416 ∷ []) × All (λ p. (4096 ≤ p) × (p + 160 ≤ 4096 + 480)) (4256 ∷ 4416 ∷ [])
Reach-AllApart_example =
    Reach-AllApart 4096 empty_handle (of_list []) zero_bin two_held (omega arith) two_grants

Reach-granted_example : (p : ℕ) × (bin : HeapBin) × (heap_malloc taken_two 64 ≡ (some p, bin))
Reach-granted_example =
    Reach-granted 4096 empty_handle (of_list []) zero_bin two_held 64 (omega arith) two_grants
      (omega arith) (omega arith) (omega arith)
