-- ===== src/Tests/Scheduling.antt =====
-- scheduler.c from its start on.
use almost_os.Prelude.{
  ℕ, ◌%◌, ◌<◌, ◌≡◌, ◌≢◌, refl, true, false, Option, none, some, List, [], of_list, arith,
}
use almost_os.Memory.ByteStack.{Stack, init, push, pop}
use almost_os.Scheduler.{
  Scheduler, scheduler_init, init_process_stack_allocator, populate_down, create_process,
  find_free_process_ctx, find_free_from, init_process_ctx, allocate_stack_memory, stack_idx_to_ptr,
  kill_process, is_unused, process_stack_count, process_stack_size,
}
use almost_os.Scheduler.Rounds.{moves, moves-fair}
use almost_os.Scheduler.Stacks.Live.{IsRunning}
use almost_os.Scheduler.Stacks.Kill.{kill_twice_shares}
use almost_os.Scheduler.Stacks.Boot.{zeroed, down, scheduler_init-IsRunning}
use almost_os.Scheduler.Stacks.History.{
  Reach, here, next, creates, stacks_distinct, Reach-IsRunning,
}

abbrev no_handle : Stack
no_handle = record { buffer_size = 0; buffer = of_list []; stack_pointer = 0 }

abbrev or_zeroed : Option Scheduler → Scheduler
or_zeroed none = zeroed
or_zeroed (some s) = s

-- The scheduler with its stacks at an address of 1 MiB, and a kernel named at 7.
abbrev booted : Scheduler
booted = or_zeroed (scheduler_init 1048576 no_handle (of_list []) true 7 zeroed)

abbrev one_process : Scheduler
one_process = create_process booted (some 8) 100

abbrev two_processes : Scheduler
two_processes = create_process one_process (some 9) 200

boots : scheduler_init 1048576 no_handle (of_list []) true 7 zeroed ≡ some booted
unfolding scheduler_init init_process_stack_allocator populate_down init push
boots = refl

two_created : Reach booted two_processes
two_created = next (next here (creates 8 100)) (creates 9 200)

first_used : is_unused (two_processes.process_list 1) ≡ false
unfolding create_process find_free_process_ctx find_free_from init_process_ctx allocate_stack_memory
    stack_idx_to_ptr scheduler_init init_process_stack_allocator populate_down init push pop
first_used = refl

second_used : is_unused (two_processes.process_list 2) ≡ false
unfolding create_process find_free_process_ctx find_free_from init_process_ctx allocate_stack_memory
    stack_idx_to_ptr scheduler_init init_process_stack_allocator populate_down init push pop
second_used = refl

kernel_used : is_unused (two_processes.process_list 0) ≡ false
unfolding create_process find_free_process_ctx find_free_from init_process_ctx allocate_stack_memory
    stack_idx_to_ptr scheduler_init init_process_stack_allocator populate_down init push pop
kernel_used = refl

kernel_current : two_processes.current_process_index ≡ 0
unfolding create_process find_free_process_ctx find_free_from init_process_ctx allocate_stack_memory
    stack_idx_to_ptr scheduler_init init_process_stack_allocator populate_down init push pop
kernel_current = refl

stacks_distinct_example :
    (two_processes.process_list 1).stack_mem_base ≢ (two_processes.process_list 2).stack_mem_base
stacks_distinct_example =
    stacks_distinct 1048576 no_handle (of_list []) 7 booted two_processes (omega arith) boots
      two_created 1 2 (omega arith) (omega arith) (omega arith) first_used second_used

scheduler_init-IsRunning_example :
    (s : Scheduler) × (scheduler_init 1048576 no_handle (of_list []) true 7 zeroed ≡ some s)
    × IsRunning s (down process_stack_count [])
    × (s.current_process_index ≡ 0)
    × (s.process_stack_memory_base % process_stack_size ≡ 0)
scheduler_init-IsRunning_example =
    scheduler_init-IsRunning 1048576 no_handle (of_list []) 7 (omega arith)

moves-fair_example :
    (n : ℕ) × (n < 16)
    × (moves n two_processes ≡ some (record two_processes { current_process_index = 2 }))
moves-fair_example =
    moves-fair two_processes 2 kernel_used (omega (arith, kernel_current)) (omega arith) second_used

-- `booted`, as the theorem on the start gives it, with two processes created.
running : (free : List ℕ) × IsRunning two_processes free
running =
    let (s, e, v, _, _) = scheduler_init-IsRunning 1048576 no_handle (of_list []) 7 (omega arith) in
    let same : s ≡ booted = cc (e, boots) in
    Reach-IsRunning (down process_stack_count []) (rw same at v) two_created

kill_twice_shares_example :
    let s₁ = kill_process (kill_process two_processes 1) 1 in
    let s₂ = (allocate_stack_memory s₁).1 in
    ((allocate_stack_memory s₁).0 ≡ (two_processes.process_list 1).stack_mem_base)
    × ((allocate_stack_memory s₂).0 ≡ (two_processes.process_list 1).stack_mem_base)
kill_twice_shares_example =
    kill_twice_shares running.1 1 2 (omega arith) (omega arith) (omega arith) first_used second_used
