-- ===== src/Scheduler/Stacks.antt =====
-- scheduler.c: the allocator of process stacks, whose free list is a byte stack.
pub mod Slots
pub mod Live
pub mod Kill
pub mod History
pub mod Boot
use almost_os.Prelude.{
  ℕ, zero, suc, ◌+◌, ◌-◌, ◌*◌, ◌/◌, ◌^◌, ◌≤◌, ◌<◌, ◌≡◌, refl, sym, ap, ◌∙◌, inl, inr, Bool, true,
  false, Option, none, some, List, [], ◌∷◌, length, All, Bytes, arith, Bool-cases, u32,
  if◌then◌else◌, leb, ltb, ◌==◌,
}
use almost_os.Memory.ByteStack
use almost_os.Memory.ByteStack.{Stack}
use almost_os.Memory.ByteStack.Refine.{IsValid, contents, pop-cons, push-room}
use almost_os.Scheduler.{
  Scheduler, process_stack_size, process_stack_count, stack_idx_to_ptr, stack_ptr_to_idx,
  allocate_stack_memory, free_stack_memory,
}

-- The address of stack `x`.
abbrev pub address : Scheduler → ℕ → ℕ
address s x = s.process_stack_memory_base + x * process_stack_size

-- A set-up allocator with the free stack numbers `free`, top first.
pub record IsAllocator (s : Scheduler) (free : List ℕ) : Type 0 where
  pub base_pos : 0 < s.process_stack_memory_base
  pub fits : s.process_stack_memory_base + 33 * process_stack_size ≤ 2 ^ 32
  pub stack : Stack
  pub handle : s.free_blocks_stack ≡ some stack
  pub valid : IsValid stack
  pub room : stack.buffer_size ≡ process_stack_count
  pub holds : contents stack ≡ free

-- The number of a stack is found again from its address, for each of the 32 stacks and a base from
-- which they do not wrap round the address space.
pub stack_ptr_to_idx-stack_idx_to_ptr :
    (base x : ℕ)
    → base + 33 * process_stack_size ≤ 2 ^ 32
    → x < process_stack_count
    → stack_ptr_to_idx base (stack_idx_to_ptr base x) ≡ x
unfolding stack_idx_to_ptr stack_ptr_to_idx
stack_ptr_to_idx-stack_idx_to_ptr base x fits small = ground arith

-- With a stack free, `allocate_stack_memory` hands out the address of the one on top.
pub allocate_lem :
    {s : Scheduler} {x : ℕ} {free : List ℕ}
    → IsAllocator s (x ∷ free)
    → x < process_stack_count
    → (h : Stack) × (allocate_stack_memory s
        ≡ (address s x, record s { free_blocks_stack = some h }))
      × IsAllocator (record s { free_blocks_stack = some h }) free
unfolding allocate_stack_memory stack_idx_to_ptr
allocate_lem {s} {x} {free} a small =
    let (h, e, c, v, n) = pop-cons a.stack 0 x free a.valid a.holds in
    (
      h,
      simp (a.handle, e) (ground (arith, a.fits)),
      record {
        base_pos = a.base_pos;
        fits = a.fits;
        stack = h;
        handle = refl;
        valid = v;
        room = n ∙ a.room;
        holds = c;
      },
    )

index_lem :
    (s : Scheduler) (x ptr : ℕ)
    → s.process_stack_memory_base + 33 * process_stack_size ≤ 2 ^ 32
    → x < process_stack_count
    → ptr ≡ address s x
    → stack_ptr_to_idx s.process_stack_memory_base ptr ≡ x
unfolding stack_ptr_to_idx
index_lem s x ptr fits small at = ground arith

-- Freeing the stack at a known address puts its number on top of the free ones.
pub free_lem :
    {s : Scheduler} {free : List ℕ} (x ptr : ℕ)
    → IsAllocator s free
    → x < process_stack_count
    → ptr ≡ address s x
    → length free < process_stack_count
    → (h : Stack) × (free_stack_memory s ptr ≡ record s { free_blocks_stack = some h })
      × IsAllocator (record s { free_blocks_stack = some h }) (x ∷ free)
unfolding free_stack_memory
free_lem {s} {free} x ptr a small at room =
    let (h, e, c, v, n) = push-room a.stack x a.valid (rw (a.holds, a.room) room) in
    let index : stack_ptr_to_idx s.process_stack_memory_base ptr ≡ x =
      index_lem s x ptr a.fits small at in
    let set_up : (ptr == 0) ≡ false = ground (arith, a.base_pos) in
    (
      h,
      simp (set_up, index, a.handle, e),
      record {
        base_pos = a.base_pos;
        fits = a.fits;
        stack = h;
        handle = refl;
        valid = v;
        room = n ∙ a.room;
        holds = c ∙ ap (λ t. x ∷ t) a.holds;
      },
    )
