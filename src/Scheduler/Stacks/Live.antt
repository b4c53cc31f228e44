-- ===== src/Scheduler/Stacks/Live.antt =====
-- scheduler.c, create_process: the stacks of the processes in use.
use almost_os.Prelude.{
  ℕ, zero, suc, ◌+◌, ◌≤◌, ◌<◌, ◌≡◌, inl, inr, true, false, some, List, [], ◌∷◌, length, count, All,
  arith, Bool-cases, Option-cases, ℕ_discrete, u32,
}
use almost_os.Scheduler.{
  Scheduler, Process, cleared, is_unused, put, max_process_count, process_stack_count,
  find_free_from, find_free_process_ctx, init_process_ctx, create_process,
}
use almost_os.Scheduler.Stacks.{IsAllocator, address, allocate_lem}
use almost_os.Scheduler.Stacks.Slots.{owners, in_use, owners-put, in_use-put, in_use-le}

-- A running scheduler whose free stacks are `free`: each of the 32 stacks is free, or has one owner.
pub record IsRunning (s : Scheduler) (free : List ℕ) : Type 0 where
  pub allocator : IsAllocator s free
  pub kernel : is_unused (s.process_list 0) ≡ false
  pub current : s.current_process_index < max_process_count
  pub small : All (λ x. x < process_stack_count) free
  pub total : in_use 15 s.process_list + length free ≡ process_stack_count
  pub once :
      (x : ℕ) → x < process_stack_count → owners (address s x) 15 s.process_list + count x free ≡ 1
  pub owned :
      (i : ℕ)
      → 1 ≤ i
      → i ≤ 15
      → is_unused (s.process_list i) ≡ false
      → (x : ℕ) × (x < process_stack_count) × ((s.process_list i).stack_mem_base ≡ address s x)

find_free_from-some :
    (n i : ℕ) (ps : ℕ → Process) (j : ℕ)
    → find_free_from n i ps ≡ some j
    → (i ≤ j) × (j < i + n) × (is_unused (ps j) ≡ true)
unfolding find_free_from
find_free_from-some zero i ps j e = absurd (cc)
find_free_from-some (suc n) i ps j e = elim (Bool-cases (is_unused (ps i))) [
  | inl here ↦ let same : i ≡ j = ground arith in (omega arith, omega arith, rw (← same) here)
  | inr passed ↦
      let (a, b, c) = find_free_from-some n (i + 1) ps j (ground arith) in
      (omega arith, omega arith, c)
]

-- The process that `init_process_ctx` sets up with the stack at `base`.
abbrev pub started : ℕ → ℕ → ℕ → Process
started name func_ptr base = record cleared {
  name = some name;
  reg_eflags = 2;
  reg_ip = u32 func_ptr;
  stack_mem_base = base;
  reg_esp = u32 base;
}

init_process_ctx-IsRunning :
    {s : Scheduler} {x : ℕ} {free : List ℕ} (i name func_ptr : ℕ)
    → IsRunning s (x ∷ free)
    → 1 ≤ i
    → i ≤ 15
    → is_unused (s.process_list i) ≡ true
    → IsRunning (init_process_ctx s i (some name) func_ptr) free
unfolding init_process_ctx
init_process_ctx-IsRunning {s} {x} {free} i name func_ptr v one le unused =
    let (h, e, a) = allocate_lem v.allocator v.small.0 in
    let ps' = put s.process_list i (started name func_ptr (address s x)) in
    rw e (record {
      allocator = record {
        base_pos = a.base_pos;
        fits = a.fits;
        stack = a.stack;
        handle = a.handle;
        valid = a.valid;
        room = a.room;
        holds = a.holds;
      };
      kernel = ground (arith, v.kernel);
      current = v.current;
      small = v.small.1;
      total = ground (
        arith,
        v.total,
        in_use-put 15 i s.process_list (started name func_ptr (address s x)) one le,
      );
      once = once';
      owned = owned';
    })
  where
    new : Process
    new = started name func_ptr (address s x)

    once' :
        (y : ℕ)
        → y < process_stack_count
        → owners (address s y) 15 (put s.process_list i new) + count y free ≡ 1
    once' y h = ground (arith, v.once y h, owners-put (address s y) 15 i s.process_list new one le)

    owned' :
        (j : ℕ)
        → 1 ≤ j
        → j ≤ 15
        → is_unused (put s.process_list i new j) ≡ false
        → (y : ℕ) × (y < process_stack_count)
          × ((put s.process_list i new j).stack_mem_base ≡ address s y)
    owned' j p q used = elim (ℕ_discrete j i) [
      | yes e ↦ (x, v.small.0, ground arith)
      | no ne ↦ let (y, small, at) = v.owned j p q (ground arith) in (y, small, ground arith)
    ]

-- `create_process` with a name keeps each stack with one owner, full table or not.
pub create_process-IsRunning :
    {s : Scheduler} (free : List ℕ) (name func_ptr : ℕ)
    → IsRunning s free
    → (free' : List ℕ) × IsRunning (create_process s (some name) func_ptr) free'
unfolding create_process find_free_process_ctx
create_process-IsRunning [] name func_ptr v = absurd (omega (arith, v.total, in_use-le 15 _))
create_process-IsRunning {s} (x ∷ free) name func_ptr v =
    elim (Option-cases (find_free_from 15 1 s.process_list)) [
      | inl full ↦ (x ∷ free, rw (full, create_process) v)
      | inr (i, e) ↦
          let (one, le, unused) = find_free_from-some 15 1 s.process_list i e in
          (
            free,
            rw (e, create_process)
                (init_process_ctx-IsRunning i name func_ptr v one (omega arith) unused),
          )
    ]
