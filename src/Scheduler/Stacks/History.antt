-- ===== src/Scheduler/Stacks/History.antt =====
-- scheduler.c over any history of creating processes, killing live ones and switching.
use almost_os.Prelude.{
  ℕ, ◌+◌, ◌*◌, ◌%◌, ◌^◌, ◌≤◌, ◌<◌, ◌≡◌, ◌≢◌, true, false, some, List, ◌∷◌, Bytes, arith, ℕ_discrete,
  ◌==◌,
}
use almost_os.Memory.ByteStack.{Stack}
use almost_os.Scheduler.{
  Scheduler, is_unused, max_process_count, process_stack_size, create_process, kill_process,
  scheduler_init, kill_current_process, move_to_next_process,
}
use almost_os.Scheduler.Rounds.{move_to_next_process-FirstUsed}
use almost_os.Scheduler.Stacks.{address}
use almost_os.Scheduler.Stacks.Slots.{two_owners}
use almost_os.Scheduler.Stacks.Live.{IsRunning, create_process-IsRunning}
use almost_os.Scheduler.Stacks.Boot.{zeroed, scheduler_init-IsRunning}
use almost_os.Scheduler.Stacks.Kill.{kill_process-IsRunning}

-- What the kernel does with the scheduler, as long as its processes have names and it kills live ones
-- only.
pub data Step (s : Scheduler) : Scheduler → Type 0 where
  creates : (name func_ptr : ℕ) → Step s (create_process s (some name) func_ptr)
  kills :
      (i : ℕ) → 1 ≤ i → i ≤ 15 → is_unused (s.process_list i) ≡ false → Step s (kill_process s i)
  exits :
      is_unused (s.process_list s.current_process_index) ≡ false → Step s (kill_current_process s)
  switches : (t : Scheduler) → move_to_next_process s ≡ some t → Step s t

pub data Reach (s : Scheduler) : Scheduler → Type 0 where
  here : Reach s s
  next : {t u : Scheduler} → Reach s t → Step t u → Reach s u

switch-IsRunning :
    {s : Scheduler} {free : List ℕ} (t : Scheduler)
    → IsRunning s free
    → move_to_next_process s ≡ some t
    → IsRunning t free
switch-IsRunning {s} t v e =
    let (j, m, f) = move_to_next_process-FirstUsed s v.kernel v.current in
    let same : record s { current_process_index = j } ≡ t = cc m in
    let at : j ≡ (s.current_process_index + f.gap) % max_process_count = cc (f.found) in
    let small : j < max_process_count = omega arith in
    rw (← same) (record {
      allocator = record {
        base_pos = v.allocator.base_pos;
        fits = v.allocator.fits;
        stack = v.allocator.stack;
        handle = v.allocator.handle;
        valid = v.allocator.valid;
        room = v.allocator.room;
        holds = v.allocator.holds;
      };
      kernel = v.kernel;
      current = small;
      small = v.small;
      total = v.total;
      once = v.once;
      owned = v.owned;
    })

exit-IsRunning :
    {s : Scheduler} (free : List ℕ)
    → IsRunning s free
    → is_unused (s.process_list s.current_process_index) ≡ false
    → (free' : List ℕ) × IsRunning (kill_current_process s) free'
unfolding kill_current_process
exit-IsRunning {s} free v used = elim (ℕ_discrete s.current_process_index 0) [
  | yes e ↦
      let kernel : (s.current_process_index == 0) ≡ true = ground arith in (free, simp kernel v)
  | no ne ↦
      let other : (s.current_process_index == 0) ≡ false = ground arith in
      let (x, at, w) =
        kill_process-IsRunning s.current_process_index v (omega arith) (omega (arith, v.current))
          used in
      (x ∷ free, simp other w)
]

-- Each step of the kernel keeps every stack free or with one owner.
pub Step-IsRunning :
    {s t : Scheduler} (free : List ℕ)
    → Step s t
    → IsRunning s free
    → (free' : List ℕ) × IsRunning t free'
Step-IsRunning free (creates name func_ptr) v = create_process-IsRunning free name func_ptr v
Step-IsRunning free (kills i one le used) v =
    let (x, at, w) = kill_process-IsRunning i v one le used in (x ∷ free, w)
Step-IsRunning free (exits used) v = exit-IsRunning free v used
Step-IsRunning free (switches t e) v = (free, switch-IsRunning t v e)

pub Reach-IsRunning :
    {s t : Scheduler} (free : List ℕ)
    → IsRunning s free
    → Reach s t
    → (free' : List ℕ) × IsRunning t free'
Reach-IsRunning free v here = (free, v)
Reach-IsRunning free v (next r st) =
    let (free', w) = Reach-IsRunning free v r in Step-IsRunning free' st w

-- After a successful `scheduler_init` with stack memory that does not wrap round the address
-- space, and any history of creating processes with names, killing live ones, exits and switches: no two live
-- processes besides the kernel's have one stack.
pub stacks_distinct :
    (memory : ℕ) (handle : Stack) (buffer : Bytes) (kernel_name : ℕ) (s t : Scheduler)
    → memory + 34 * process_stack_size ≤ 2 ^ 32
    → scheduler_init memory handle buffer true kernel_name zeroed ≡ some s
    → Reach s t
    → (i j : ℕ) → 1 ≤ i
    → i < j
    → j ≤ 15
    → is_unused (t.process_list i) ≡ false
    → is_unused (t.process_list j) ≡ false
    → (t.process_list i).stack_mem_base ≢ (t.process_list j).stack_mem_base
stacks_distinct memory handle buffer kernel_name s t fits e r i j one lt le ui uj same =
    let (s', e', v, _, _) = scheduler_init-IsRunning memory handle buffer kernel_name fits in
    let eq : s' ≡ s = cc (e, e') in
    let (free, w) = Reach-IsRunning _ (rw eq at v) r in
    let (x, small, at) = w.owned i one (omega arith) ui in
    ground (arith, w.once x small, two_owners (address t x) 15 i j t.process_list one lt le)
