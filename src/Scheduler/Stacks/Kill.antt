-- ===== src/Scheduler/Stacks/Kill.antt =====
-- scheduler.c, kill_process of a live process, and of a dead one.
use almost_os.Prelude.{
  ℕ, ◌+◌, ◌*◌, ◌≤◌, ◌<◌, ◌≡◌, ◌≢◌, refl, sym, ap, ◌∙◌, false, none, List, ◌∷◌, length, arith,
  ℕ_discrete, ◌==◌,
}
use almost_os.Scheduler.{
  Scheduler, Process, is_unused, put, process_stack_size, process_stack_count,
  allocate_stack_memory, kill_process,
}
use almost_os.Scheduler.Stacks.{IsAllocator, address, allocate_lem, free_lem}
use almost_os.Scheduler.Stacks.Slots.{owners-put, in_use-put, live-le-in_use, two_live}
use almost_os.Scheduler.Stacks.Live.{IsRunning}

-- Killing a live process frees its stack.
pub kill_process-IsRunning :
    {s : Scheduler} {free : List ℕ} (i : ℕ)
    → IsRunning s free
    → 1 ≤ i
    → i ≤ 15
    → is_unused (s.process_list i) ≡ false
    → (x : ℕ) × ((s.process_list i).stack_mem_base ≡ address s x)
      × IsRunning (kill_process s i) (x ∷ free)
unfolding kill_process
kill_process-IsRunning {s} {free} i v one le used =
    let (x, small, at) = v.owned i one le used in
    let (h, e, a) =
      free_lem {s = marked} x (s.process_list i).stack_mem_base marked_allocator small at room in
    let known : (i == 0) ≡ false = ground arith in
    (
      x,
      at,
      simp (known, e)
          (record {
            allocator = a;
            kernel = ground (arith, v.kernel);
            current = v.current;
            small = (small, v.small);
            total = ground (arith, v.total, in_use-put 15 i s.process_list dead one le);
            once = λ y b.
                ground
                  (arith, v.once y b, owners-put (address s y) 15 i s.process_list dead one le);
            owned = owned';
          }),
    )
  where
    dead : Process
    dead = record (s.process_list i) { name = none }

    marked : Scheduler
    marked = record s { process_list = put s.process_list i dead }

    marked_allocator : IsAllocator marked free
    marked_allocator = record {
      base_pos = v.allocator.base_pos;
      fits = v.allocator.fits;
      stack = v.allocator.stack;
      handle = v.allocator.handle;
      valid = v.allocator.valid;
      room = v.allocator.room;
      holds = v.allocator.holds;
    }

    room : length free < process_stack_count
    room = ground (arith, v.total, live-le-in_use 15 i s.process_list one le)

    owned' :
        (j : ℕ)
        → 1 ≤ j
        → j ≤ 15
        → is_unused (put s.process_list i dead j) ≡ false
        → (y : ℕ) × (y < process_stack_count)
          × ((put s.process_list i dead j).stack_mem_base ≡ address s y)
    owned' j p q used = elim (ℕ_discrete j i) [
      | yes e ↦ absurd (ground arith)
      | no ne ↦ let (y, small, at) = v.owned j p q (ground arith) in (y, small, ground arith)
    ]

-- Killing a process that is dead already pushes the number of its stack once more.
pub kill_process-dead :
    {s : Scheduler} {free : List ℕ} (i x : ℕ)
    → IsAllocator s free
    → i ≢ 0
    → x < process_stack_count
    → (s.process_list i).stack_mem_base ≡ address s x
    → length free < process_stack_count
    → IsAllocator (kill_process s i) (x ∷ free)
      × ((kill_process s i).process_stack_memory_base ≡ s.process_stack_memory_base)
      × (((kill_process s i).process_list i).stack_mem_base ≡ address s x)
unfolding kill_process
kill_process-dead {s} {free} i x a ne small at room =
    let (h, e, b) =
      free_lem {s = marked} x (s.process_list i).stack_mem_base marked_allocator small at room in
    let known : (i == 0) ≡ false = ground arith in simp (known, e) (b, refl, ground arith)
  where
    marked : Scheduler
    marked = record s {
      process_list = put s.process_list i (record (s.process_list i) { name = none });
    }

    marked_allocator : IsAllocator marked free
    marked_allocator = record {
      base_pos = a.base_pos;
      fits = a.fits;
      stack = a.stack;
      handle = a.handle;
      valid = a.valid;
      room = a.room;
      holds = a.holds;
    }

-- A fault: if one of two live processes of a running scheduler, neither of them the kernel's, is
-- killed twice, then the next two stacks handed out are one and the same.
pub kill_twice_shares :
    {s : Scheduler} {free : List ℕ}
    → IsRunning s free
    → (i j : ℕ) → 1 ≤ i
    → i < j
    → j ≤ 15
    → is_unused (s.process_list i) ≡ false
    → is_unused (s.process_list j) ≡ false
    → let s₁ = kill_process (kill_process s i) i in
      let s₂ = (allocate_stack_memory s₁).1 in
      ((allocate_stack_memory s₁).0 ≡ (s.process_list i).stack_mem_base)
      × ((allocate_stack_memory s₂).0 ≡ (s.process_list i).stack_mem_base)
kill_twice_shares {s} {free} v i j one lt le ui uj =
    let (x, small, at) = v.owned i one (omega arith) ui in
    let room : length free + 1 < process_stack_count =
      ground (arith, v.total, two_live 15 i j s.process_list one lt le) in
    let ne : i ≢ 0 = omega arith in
    let (a, b, at') = kill_process-dead i x v.allocator ne small at (omega arith) in
    let at'' : ((kill_process s i).process_list i).stack_mem_base ≡ address (kill_process s i) x =
      at' ∙ ap (λ t. t + x * process_stack_size) (sym b) in
    let (a₂, b₂, _) = kill_process-dead {s = kill_process s i} i x a ne small at'' (omega arith) in
    let (h, e, a₃) = allocate_lem a₂ small in
    let (h', e', _) = allocate_lem a₃ small in
    let base : address (kill_process (kill_process s i) i) x ≡ (s.process_list i).stack_mem_base =
      ap (λ t. t + x * process_stack_size) (b₂ ∙ b) ∙ sym at in
    (rw e base, rw (e, e') base)
