-- ===== src/Scheduler/Stacks/Boot.antt =====
-- scheduler.c, scheduler_init: the first state.
use almost_os.Prelude.{
  ℕ, zero, suc, ◌+◌, ◌*◌, ◌%◌, ◌^◌, ◌≤◌, ◌<◌, ◌≡◌, refl, ap, ◌∙◌, Bool, true, none, some, List, [],
  ◌∷◌, length, count, All, Bytes, arith, if◌then◌else◌, ltb,
}
use almost_os.Memory.ByteStack.{Stack}
use almost_os.Memory.ByteStack.Refine.{IsValid, contents, push-room, init-empty}
use almost_os.Scheduler.{
  Scheduler, Process, cleared, put, populate_down, init_process_stack_allocator, scheduler_init,
  aligned_base, process_stack_size, process_stack_count,
}
use almost_os.Scheduler.Stacks.{IsAllocator}
use almost_os.Scheduler.Stacks.Slots.{in_use-cleared, owners-cleared}
use almost_os.Scheduler.Stacks.Live.{IsRunning}

-- The numbers 0, …, n - 1 on top of `xs`.
abbrev pub down : ℕ → List ℕ → List ℕ
down zero xs = xs
down (suc n) xs = down n (n ∷ xs)

length-down : (n : ℕ) (xs : List ℕ) → length (down n xs) ≡ n + length xs
length-down zero xs = omega arith
length-down (suc n) xs = omega (arith, length-down n (n ∷ xs))

count-down : (n x : ℕ) (xs : List ℕ) → count x (down n xs) ≡ (if ltb x n then 1 else 0) + count x xs
count-down zero x xs = ground arith
count-down (suc n) x xs = ground (arith, count-down n x (n ∷ xs))

All-down : (n m : ℕ) (xs : List ℕ) → n ≤ m → All (λ x. x < m) xs → All (λ x. x < m) (down n xs)
All-down zero m xs le h = h
All-down (suc n) m xs le h = All-down n m (n ∷ xs) (omega arith) (le, h)

-- The loop that fills the stack of free numbers succeeds where there is room.
populate_down_lem :
    (n : ℕ) (s : Stack)
    → IsValid s
    → length (contents s) + n ≤ s.buffer_size
    → (t : Stack) × (populate_down n (some s) ≡ (true, some t))
      × IsValid t
      × (contents t ≡ down n (contents s))
      × (t.buffer_size ≡ s.buffer_size)
unfolding populate_down
populate_down_lem zero s v h = (s, refl, v, refl, refl)
populate_down_lem (suc n) s v h =
    let (s', e, c, v', k) = push-room s n v (omega arith) in
    let (t, f, w, d, m) = populate_down_lem n s' v' (omega (arith, ap length c)) in
    (t, rw e f, w, d ∙ ap (down n) c, m ∙ k)

-- The file's static state before `scheduler_init`.
abbrev pub zeroed : Scheduler
zeroed = record {
  process_list = λ i. cleared;
  current_process_index = 0;
  process_stack_memory_base = 0;
  free_blocks_stack = none;
}

-- Setting up the allocator frees all stacks, 0 on top, at an aligned address.
init_process_stack_allocator_lem :
    (memory : ℕ) (handle : Stack) (stack_buffer : Bytes) (fall_off : Bool) (s : Scheduler)
    → memory + 34 * process_stack_size ≤ 2 ^ 32
    → (h : Stack) × (init_process_stack_allocator memory handle stack_buffer fall_off s ≡ (
      fall_off,
      record s { process_stack_memory_base = aligned_base memory; free_blocks_stack = some h },
    ))
      × IsAllocator
          (record s { process_stack_memory_base = aligned_base memory; free_blocks_stack = some h })
          (down process_stack_count [])
unfolding init_process_stack_allocator
init_process_stack_allocator_lem memory handle stack_buffer fall_off s fits =
    let (fresh, e, v, c, k) = init-empty handle stack_buffer process_stack_count (omega arith) in
    let (h, f, w, d, m) =
      populate_down_lem process_stack_count fresh v (omega (arith, ap length c, k)) in
    (
      h,
      rw (e, f),
      record {
        base_pos = omega arith;
        fits = omega arith;
        stack = h;
        handle = refl;
        valid = w;
        room = m ∙ k;
        holds = d ∙ ap (down process_stack_count) c;
      },
    )

-- Where `init_process_stack_allocator`, which ends without a return value, answers true, and the
-- stack memory does not wrap round the address space, `scheduler_init` succeeds: the kernel
-- process is the current one, all 32 stacks are free, and they lie at multiples of their size.
pub scheduler_init-IsRunning :
    (memory : ℕ) (handle : Stack) (stack_buffer : Bytes) (kernel_name : ℕ)
    → memory + 34 * process_stack_size ≤ 2 ^ 32
    → (s : Scheduler) × (scheduler_init memory handle stack_buffer true kernel_name zeroed ≡ some s)
      × IsRunning s (down process_stack_count [])
      × (s.current_process_index ≡ 0)
      × (s.process_stack_memory_base % process_stack_size ≡ 0)
unfolding scheduler_init
scheduler_init-IsRunning memory handle stack_buffer kernel_name fits =
    let (h, e, a) = init_process_stack_allocator_lem memory handle stack_buffer true named fits in
    (
      record named { process_stack_memory_base = aligned_base memory; free_blocks_stack = some h },
      rw e,
      record {
        allocator = a;
        kernel = refl;
        current = omega arith;
        small = All-down process_stack_count process_stack_count [] (omega arith) tt;
        total = omega (arith, in_use-cleared 15 kernel, length-down process_stack_count []);
        once = λ x small. ground (
          arith,
          owners-cleared (aligned_base memory + x * process_stack_size) 15 kernel,
          count-down process_stack_count x [],
        );
        owned = λ i one le used. absurd (ground arith);
      },
      refl,
      omega arith,
    )
  where
    kernel : Process
    kernel = record cleared { name = some kernel_name }

    named : Scheduler
    named = record zeroed { current_process_index = 0; process_list = put (λ i. cleared) 0 kernel }
