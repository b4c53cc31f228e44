-- ===== src/Scheduler.antt =====
-- scheduler.c: the table of processes, the round robin, and the memory for their stacks.
-- Names and functions are the addresses that the code keeps; a NULL name is `none`.
pub mod Rounds
pub mod Stacks
use almost_os.Prelude.{
  ℕ, zero, suc, ◌+◌, ◌-◌, ◌*◌, ◌/◌, ◌%◌, ◌^◌, Bool, true, false, Option, none, some, Bytes, ltb,
  leb, ◌==◌, if◌then◌else◌, u8, u32,
}
use almost_os.Memory.ByteStack
use almost_os.Memory.ByteStack.{Stack}

-- `struct process_ctx`; `stack_mem_base` is an address, 0 if NULL.
pub record Process : Type 0 where
  pub reg_esp : ℕ
  pub reg_eax : ℕ
  pub reg_ebx : ℕ
  pub reg_ecx : ℕ
  pub reg_edx : ℕ
  pub reg_esi : ℕ
  pub reg_edi : ℕ
  pub reg_ebp : ℕ
  pub reg_ip : ℕ
  pub reg_eflags : ℕ
  pub stack_mem_base : ℕ
  pub name : Option ℕ

-- What `memset(ctx, 0, sizeof(struct process_ctx))` leaves.
abbrev pub cleared : Process
cleared = record {
  reg_esp = 0;
  reg_eax = 0;
  reg_ebx = 0;
  reg_ecx = 0;
  reg_edx = 0;
  reg_esi = 0;
  reg_edi = 0;
  reg_ebp = 0;
  reg_ip = 0;
  reg_eflags = 0;
  stack_mem_base = 0;
  name = none;
}

-- The file's static state. An index past the table reaches what lies behind it in memory.
pub record Scheduler : Type 0 where
  pub process_list : ℕ → Process
  pub current_process_index : ℕ
  pub process_stack_memory_base : ℕ
  pub free_blocks_stack : Option Stack

abbrev pub max_process_count : ℕ
max_process_count = 16

abbrev pub process_stack_size : ℕ
process_stack_size = 131072

abbrev pub process_stack_count : ℕ
process_stack_count = 32

-- `process_list[i].name == NULL`
abbrev pub is_unused : Process → Bool
is_unused p = elim p.name [ none ↦ true | some n ↦ false ]

-- `process_list[i] = p`
abbrev pub put : (ℕ → Process) → ℕ → Process → ℕ → Process
put ps i p j = if j == i then p else ps j

-- `get_current_process`, as an index
unfoldable pub get_current_process : Scheduler → ℕ
get_current_process s = s.current_process_index

-- The loop of `find_free_process_ctx`, `n` rounds from `i`.
unfoldable pub find_free_from : ℕ → ℕ → (ℕ → Process) → Option ℕ
find_free_from zero i ps = none
find_free_from (suc n) i ps =
    let rest = find_free_from n (i + 1) ps in if is_unused (ps i) then some i else rest

-- `find_free_process_ctx`: the kernel process, 0, is passed over.
unfoldable pub find_free_process_ctx : Scheduler → Option ℕ
find_free_process_ctx s = find_free_from (max_process_count - 1) 1 s.process_list

-- The `while(1)` of `move_to_next_process`; `none` after `fuel` rounds without a slot in use.
unfoldable pub next_used : ℕ → ℕ → (ℕ → Process) → Option ℕ
next_used zero i ps = none
next_used (suc fuel) i ps =
    let j = (i + 1) % max_process_count in
    let rest = next_used fuel j ps in if is_unused (ps j) then rest else some j

-- `move_to_next_process`. After 16 rounds the loop has seen every slot, and would go on for ever.
unfoldable pub move_to_next_process : Scheduler → Option Scheduler
move_to_next_process s = elim (next_used max_process_count s.current_process_index s.process_list) [
  | none ↦ none
  | some i ↦ some (record s { current_process_index = i })
]

-- `schedule`: the new state, and the switch from one process to another that it makes.
unfoldable pub schedule : Scheduler → Option (Scheduler × Option (ℕ × ℕ))
unfolding get_current_process
schedule s = elim (move_to_next_process s) [
  | none ↦ none
  | some s' ↦ some (
    s',
    if get_current_process s == get_current_process s'
        then none
        else some (get_current_process s, get_current_process s'),
  )
]

-- `stack_idx_to_ptr`; NULL is 0.
unfoldable pub stack_idx_to_ptr : ℕ → ℕ → ℕ
stack_idx_to_ptr base idx =
    if leb process_stack_count idx then 0 else u32 (base + idx * process_stack_size)

-- `stack_ptr_to_idx`; the pointer difference is a signed number, and C's division rounds to zero.
unfoldable pub stack_ptr_to_idx : ℕ → ℕ → ℕ
stack_ptr_to_idx base ptr =
    if leb (u32 (base + process_stack_size * process_stack_count)) ptr
    then process_stack_count
    else if leb base ptr
    then u8 ((ptr - base) / process_stack_size)
    else u8 (256 - (base - ptr) / process_stack_size % 256)

-- `allocate_stack_memory`
unfoldable pub allocate_stack_memory : Scheduler → ℕ × Scheduler
unfolding stack_idx_to_ptr
allocate_stack_memory s =
    let (done, out, h) = ByteStack.pop s.free_blocks_stack (some 0) in
    let index : ℕ = elim out [ none ↦ 0 | some x ↦ x ] in
    let s' = record s { free_blocks_stack = h } in
    if done
    then if leb process_stack_count index
      then (0, s')
      else (stack_idx_to_ptr s.process_stack_memory_base index, s')
    else (0, s')

-- `free_stack_memory`: a wrong index is logged, and pushed all the same.
unfoldable pub free_stack_memory : Scheduler → ℕ → Scheduler
free_stack_memory s ptr = if ptr == 0 then s else record s {
  free_blocks_stack =
      (ByteStack.push s.free_blocks_stack (stack_ptr_to_idx s.process_stack_memory_base ptr)).1;
}

-- `init_process_ctx`; the function pointer and the name are addresses, the name NULL as `none`.
unfoldable pub init_process_ctx : Scheduler → ℕ → Option ℕ → ℕ → Scheduler
init_process_ctx s i name func_ptr =
    let (stack_mem_base, s') = allocate_stack_memory s in
    record s' {
      process_list = put s'.process_list i (record cleared {
        name = name;
        reg_eflags = 2;
        reg_ip = u32 func_ptr;
        stack_mem_base = stack_mem_base;
        reg_esp = u32 stack_mem_base;
      });
    }

-- `create_process`: a full table is only reported, and a process without a name takes a stack and
-- leaves its slot unused.
unfoldable pub create_process : Scheduler → Option ℕ → ℕ → Scheduler
unfolding init_process_ctx
create_process s name func_ptr = elim (find_free_process_ctx s) [
  | none ↦ s
  | some i ↦ init_process_ctx s i name func_ptr
]

-- `kill_process`; the index is not checked against the table.
unfoldable pub kill_process : Scheduler → ℕ → Scheduler
kill_process s i =
    if i == 0
    then s
    else free_stack_memory
        (record s {
          process_list = put s.process_list i (record (s.process_list i) { name = none });
        })
        (s.process_list i).stack_mem_base

-- `kill_current_process`
unfoldable pub kill_current_process : Scheduler → Scheduler
kill_current_process s =
    if s.current_process_index == 0 then s else kill_process s s.current_process_index

-- `get_process_name`
abbrev pub get_process_name : Scheduler → ℕ → Option ℕ
get_process_name s i = (s.process_list i).name

-- `struct process_internals`
pub record ProcessInternals : Type 0 where
  pub stack_mem_start : ℕ
  pub stack_pointer : ℕ
  pub stack_base : ℕ
  pub ip : ℕ

-- `get_process_internals`
abbrev pub get_process_internals : Scheduler → ℕ → ProcessInternals
get_process_internals s i = record {
  stack_mem_start = u32 (s.process_list i).stack_mem_base;
  stack_pointer = (s.process_list i).reg_esp;
  stack_base = (s.process_list i).reg_ebp;
  ip = (s.process_list i).reg_ip;
}

-- `(memory + PROCESS_STACK_SIZE) & ~(PROCESS_STACK_SIZE - 1)`
abbrev pub aligned_base : ℕ → ℕ
aligned_base memory =
    u32 (memory + process_stack_size) - u32 (memory + process_stack_size) % process_stack_size

-- `for (i = n - 1; i >= 0; i--) if (!stack_push(&free_blocks_stack, i)) return false;`
unfoldable pub populate_down : ℕ → Option Stack → Bool × Option Stack
populate_down zero h = (true, h)
populate_down (suc n) h =
    let (done, h') = ByteStack.push h n in
    let rest = populate_down n h' in if done then rest else (false, h')

-- `init_process_stack_allocator`, with the static objects as arguments: where
-- `process_stack_memory` lies, the stack's handle and its buffer. The function ends without a
-- `return` where it succeeds: `fall_off` is what its caller finds then.
unfoldable pub init_process_stack_allocator :
    ℕ → Stack → Bytes → Bool → Scheduler → Bool × Scheduler
init_process_stack_allocator memory handle stack_buffer fall_off s =
    let based = record s { process_stack_memory_base = aligned_base memory } in
    let (fresh, h) = ByteStack.init (some handle) (some stack_buffer) process_stack_count in
    let (filled, h') = populate_down process_stack_count h in
    if fresh
    then (if filled then fall_off else false, record based { free_blocks_stack = h' })
    else (false, record based { free_blocks_stack = h })

-- `scheduler_init`; `none` is the kernel's panic. `kernel_name` is the address of the name.
unfoldable pub scheduler_init : ℕ → Stack → Bytes → Bool → ℕ → Scheduler → Option Scheduler
scheduler_init memory handle stack_buffer fall_off kernel_name s =
    let named = record s {
      current_process_index = 0;
      process_list = put s.process_list 0 (record (s.process_list 0) { name = some kernel_name });
    } in
    let (ready, s') = init_process_stack_allocator memory handle stack_buffer fall_off named in
    if ready then some s' else none
