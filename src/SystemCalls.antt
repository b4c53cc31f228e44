-- ===== src/SystemCalls.antt =====
-- system_calls.c: the calls that the interrupt 128 makes, and what `sys_write` prints. An `int` and a
-- `size_t` are words.
pub mod Write
use almost_os.Prelude.{
  ℕ, suc, ◌+◌, ◌-◌, ◌*◌, Bool, true, false, not, ◌&&◌, Option, none, some, List, [], ◌∷◌, Bytes,
  store, of_list, ltb, leb, ◌==◌, if◌then◌else◌,
}
use almost_os.Prelude.Int.{ℤ, pos, negsuc, int_eq}
use almost_os.Prelude.Maybe.{option_map, option_or}
use almost_os.Util.Mem.{mem_copy}
use almost_os.Stdio.{kernel_printf, signed32}
use almost_os.Scheduler.{Scheduler, kill_current_process}

abbrev pub stdout_fileno : ℕ
stdout_fileno = 1

abbrev pub syscall_exit : ℕ
syscall_exit = 1

abbrev pub syscall_write : ℕ
syscall_write = 4

-- `sizeof(local_buf)`
abbrev pub local_buf_size : ℕ
local_buf_size = 1024

-- What the call finds on its stack: where `local_buf` lies, and what the buffers of `kernel_printf`
-- hold at first.
pub record Frame : Type 0 where
  pub local : ℕ
  pub buffer : Bytes
  pub numbuf : Bytes

-- `local_buf` after the copy and the final 0.
unfoldable pub filled_buffer : Bytes → ℕ → ℕ → Bytes
filled_buffer memory buf count =
    let copied =
      mem_copy (some (of_list [])) (pos local_buf_size) (some (λ i. memory (buf + i)))
        (pos count) in
    store (option_or copied.1 (of_list [])) (local_buf_size - 1) 0

-- The address space with `local_buf` at its place.
unfoldable pub with_local : ℕ → Bytes → Bytes → Bytes
with_local local local_buf memory q =
    if leb local q && ltb q (local + local_buf_size) then local_buf (q - local) else memory q

-- `%s`
abbrev pub string_format : Bytes
string_format = of_list (37 ∷ 115 ∷ [])

-- `[ERROR] sys_write(): Bad FD = %d`
abbrev pub bad_fd_format : Bytes
bad_fd_format = of_list (
    91 ∷ 69 ∷ 82 ∷ 82 ∷ 79 ∷ 82 ∷ 93 ∷ 32 ∷ 115 ∷ 121 ∷ 115 ∷ 95 ∷ 119 ∷ 114 ∷ 105 ∷ 116 ∷ 101 ∷ 40
    ∷ 41 ∷ 58 ∷ 32 ∷ 66 ∷ 97 ∷ 100 ∷ 32 ∷ 70 ∷ 68 ∷ 32 ∷ 61 ∷ 32 ∷ 37 ∷ 100 ∷ [])

-- `[ERROR] sys_write(): Mesage too big! count = %d`
abbrev pub too_big_format : Bytes
too_big_format = of_list (
    91 ∷ 69 ∷ 82 ∷ 82 ∷ 79 ∷ 82 ∷ 93 ∷ 32 ∷ 115 ∷ 121 ∷ 115 ∷ 95 ∷ 119 ∷ 114 ∷ 105 ∷ 116 ∷ 101 ∷ 40
    ∷ 41 ∷ 58 ∷ 32 ∷ 77 ∷ 101 ∷ 115 ∷ 97 ∷ 103 ∷ 101 ∷ 32 ∷ 116 ∷ 111 ∷ 111 ∷ 32 ∷ 98 ∷ 105 ∷ 103
    ∷ 33 ∷ 32 ∷ 99 ∷ 111 ∷ 117 ∷ 110 ∷ 116 ∷ 32 ∷ 61 ∷ 32 ∷ 37 ∷ 100 ∷ [])

-- A call of `kernel_printf` with one argument
abbrev pub printed : ℕ → Frame → Bytes → Bytes → ℕ → Option Bytes
printed fuel frame format memory arg =
    kernel_printf fuel format memory (λ i. arg) frame.buffer frame.numbuf

-- `sys_write`: the result, and the buffer that `kernel_printf` prints; `fuel` is that of
-- `kernel_printf`.
unfoldable pub sys_write : ℕ → Frame → Bytes → ℕ → ℕ → ℕ → Option (ℤ × Bytes)
unfolding filled_buffer with_local
sys_write fuel frame memory fd buf count =
    if not (fd == stdout_fileno)
    then option_map (λ out. (negsuc 8, out)) (printed fuel frame bad_fd_format memory fd)
    else if ltb (local_buf_size - 1) count
    then option_map (λ out. (negsuc 11, out)) (printed fuel frame too_big_format memory count)
    else option_map (λ out. (pos count, out))
        (printed fuel frame string_format
          (with_local frame.local (filled_buffer memory buf count) memory) frame.local)

-- `sys_exit`; the status is not used.
abbrev pub sys_exit : Scheduler → ℤ → Scheduler
sys_exit s exit_status = kill_current_process s

-- `syscall_entry_point_C`: the processes after it, and what it prints.
unfoldable pub syscall_entry_point :
    ℕ → Frame → Bytes → Scheduler → ℕ → ℕ → ℕ → ℕ → Option (Scheduler × Option Bytes)
syscall_entry_point fuel frame memory s syscall_num arg1 arg2 arg3 =
    if syscall_num == syscall_write
    then option_map (λ (_, out). (s, some out)) (sys_write fuel frame memory arg1 arg2 arg3)
    else if syscall_num == syscall_exit
    then some (sys_exit s (signed32 arg1), none)
    else some (s, none)
