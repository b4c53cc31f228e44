-- ===== src/Shell/Output.antt =====
-- shell/cmd_ls.c, cmd_ps.c and cmd_hexdump.c: what `ls`, `ps` and `hexdump` print, by the functions
-- of kernel_stdio.c. A failed `read_file` leaves no rows. The fuel is that of the searches for the end
-- of a string.
pub mod Shown
pub mod Names
use almost_os.Prelude.{
  ℕ, zero, suc, ◌+◌, ◌-◌, Option, none, some, List, [], ◌∷◌, Bytes, of_list, store, ltb, ◌==◌,
  if◌then◌else◌,
}
use almost_os.Prelude.Int.{ℤ, pos, rounds, int_lt}
use almost_os.Prelude.Maybe.{◌>>=◌, option_map}
use almost_os.Util.Strings.{strlen_unsafe}
use almost_os.Util.Numbers.{long_to_hex}
use almost_os.TinyFs.Disk.{Disk}
use almost_os.Router.{read_file}
use almost_os.Router.Listing.{get_list_of_files}
use almost_os.Scheduler.{Scheduler, get_process_name, get_process_internals, max_process_count}
use almost_os.Stdio.Console.{Console, kernel_printf_print, kernel_println, kernel_putchar}
use almost_os.Shell.Paths.{absolute_path, list_path}
use almost_os.Shell.Commands.{Surroundings, execute_dump_data}

-- The memory in which `kernel_printf` finds its strings, and what its local arrays hold at first.
pub record Printing : Type 0 where
  pub memory : Bytes
  pub buffer : Bytes
  pub numbuf : Bytes

-- The arguments of a call of `kernel_printf`
abbrev pub arguments : List ℕ → ℕ → ℕ
arguments [] i = 0
arguments (x ∷ xs) zero = x
arguments (x ∷ xs) (suc i) = arguments xs i

abbrev pub printf : ℕ → Printing → Console → Bytes → List ℕ → Option Console
printf fuel p c format args =
    kernel_printf_print fuel c format p.memory (arguments args) p.buffer p.numbuf

-- The memory with the 100 bytes of `abs_path`
abbrev pub with_path : Printing → ℕ → Bytes → Printing
with_path p address abs_path = record p {
  memory = λ k.
      if ltb k address
      then p.memory k
      else if ltb k (address + 100)
      then abs_path (k - address)
      else p.memory k;
}

-- The loop of `execute__ls` over the names: `n` bytes from offset `i`; a terminator ends a line.
unfoldable pub show_names : ℕ → ℕ → Console → Bytes → Option Console
show_names zero i c buffer = some c
show_names (suc n) i c buffer =
    kernel_putchar c (if buffer i == 0 then 10 else buffer i)
    >>= (λ c'. show_names n (i + 1) c' buffer)

-- `\n[ls] path: %s \n\n`
abbrev pub ls_format : Bytes
ls_format =
    of_list (
      10 ∷ 91 ∷ 108 ∷ 115 ∷ 93 ∷ 32 ∷ 112 ∷ 97 ∷ 116 ∷ 104 ∷ 58 ∷ 32 ∷ 37 ∷ 115 ∷ 32 ∷ 10 ∷ 10 ∷ [])

-- `execute__ls`, with the first argument if there is one; `buffer` is what its local array holds at
-- first.
unfoldable pub execute_ls :
    ℕ → Surroundings → Printing → Console → Bytes → Bytes → Option Bytes → Option Console
execute_ls fuel env p c current_dir buffer arg = list_path fuel current_dir arg >>= (λ abs_path.
    printf fuel (with_path p env.abs_path_address abs_path) c ls_format (env.abs_path_address ∷ [])
    >>= (λ c'.
        get_list_of_files env.mount_table env.disk env.junk env.fall_off abs_path buffer 2048
        >>= (λ (ret_len, filled).
            show_names (rounds ret_len) 0 c' filled
            >>= (λ shown. kernel_println fuel shown (of_list [])))))

-- The spaces behind a name in `execute__ps`
unfoldable pub put_spaces : ℕ → Console → Option Console
put_spaces zero c = some c
put_spaces (suc n) c = kernel_putchar c 32 >>= put_spaces n

-- `PID    %sPC/IP       SP          BP           Stack start\n`
abbrev pub ps_header : Bytes
ps_header = of_list (
    80 ∷ 73 ∷ 68 ∷ 32 ∷ 32 ∷ 32 ∷ 32 ∷ 37 ∷ 115 ∷ 80 ∷ 67 ∷ 47 ∷ 73 ∷ 80 ∷ 32 ∷ 32 ∷ 32 ∷ 32 ∷ 32
    ∷ 32 ∷ 32 ∷ 83 ∷ 80 ∷ 32 ∷ 32 ∷ 32 ∷ 32 ∷ 32 ∷ 32 ∷ 32 ∷ 32 ∷ 32 ∷ 32 ∷ 66 ∷ 80 ∷ 32 ∷ 32 ∷ 32
    ∷ 32 ∷ 32 ∷ 32 ∷ 32 ∷ 32 ∷ 32 ∷ 32 ∷ 32 ∷ 83 ∷ 116 ∷ 97 ∷ 99 ∷ 107 ∷ 32 ∷ 115 ∷ 116 ∷ 97 ∷ 114
    ∷ 116 ∷ 10 ∷ [])

-- `%02d     %s`
abbrev pub ps_format : Bytes
ps_format = of_list (37 ∷ 48 ∷ 50 ∷ 100 ∷ 32 ∷ 32 ∷ 32 ∷ 32 ∷ 32 ∷ 37 ∷ 115 ∷ [])

-- `0x%08x  0x%08x  0x%08x   0x%08x \n`
abbrev pub ps_addresses : Bytes
ps_addresses = of_list (
    48 ∷ 120 ∷ 37 ∷ 48 ∷ 56 ∷ 120 ∷ 32 ∷ 32 ∷ 48 ∷ 120 ∷ 37 ∷ 48 ∷ 56 ∷ 120 ∷ 32 ∷ 32 ∷ 48 ∷ 120
    ∷ 37 ∷ 48 ∷ 56 ∷ 120 ∷ 32 ∷ 32 ∷ 32 ∷ 48 ∷ 120 ∷ 37 ∷ 48 ∷ 56 ∷ 120 ∷ 32 ∷ 10 ∷ [])

-- A row of `execute__ps`, for the process with a name at `name`. A name of more than 20 characters
-- has no spaces behind it.
unfoldable pub ps_row : ℕ → Printing → Scheduler → ℕ → ℕ → Console → Option Console
ps_row fuel p s i name c =
    let proc = get_process_internals s i in
    printf fuel p c ps_format (i ∷ name ∷ [])
    >>= put_spaces (20 - strlen_unsafe (some (λ k. p.memory (name + k))))
    >>= (λ c'.
        printf fuel p c' ps_addresses
          (proc.ip ∷ proc.stack_pointer ∷ proc.stack_base ∷ proc.stack_mem_start ∷ []))

-- The loop of `execute__ps`: `n` rounds from process `i`.
unfoldable pub ps_from : ℕ → ℕ → ℕ → Printing → Scheduler → Console → Option Console
ps_from zero i fuel p s c = some c
ps_from (suc n) i fuel p s c =
    elim (get_process_name s i) [ none ↦ some c | some name ↦ ps_row fuel p s i name c ]
    >>= ps_from n (i + 1) fuel p s

-- `execute__ps`; `space` is where the 20 characters of `space_for_process_name` lie.
unfoldable pub execute_ps : ℕ → Printing → ℕ → Scheduler → Console → Option Console
execute_ps fuel p space s c =
    printf fuel p c ps_header (space ∷ []) >>= ps_from max_process_count 0 fuel p s

-- The call of `execute__dump_data` in `execute__hexdump`, with the address of the buffer in
-- hexadecimal. The rows go over the 128 bytes of the buffer.
abbrev pub dump_buffer : Bytes → Bytes → ℕ → Bytes → ℕ → ℕ × List Bytes
dump_buffer template memory address buffer previous_offset =
    execute_dump_data template (λ k. if ltb k address then memory k else buffer (k - address))
      previous_offset (some (long_to_hex address (of_list []) 9 16).0)

-- `execute__hexdump`, with the first argument if there is one: the static offset of
-- `execute__dump_data` after it, and the rows.
unfoldable pub execute_hexdump :
    ℕ → Surroundings → Bytes → Bytes → Bytes → ℕ → ℕ → Option Bytes → Option (ℕ × List Bytes)
execute_hexdump fuel env current_dir template memory address previous_offset none =
    some (previous_offset, [])
execute_hexdump fuel env current_dir template memory address previous_offset (some filename) =
    absolute_path fuel current_dir filename >>= (λ abs_path.
      option_map
        (λ (ret_len, filled).
          if int_lt (pos 0) ret_len
          then dump_buffer template memory address filled previous_offset
          else (previous_offset, []))
        (read_file env.mount_table env.disk env.junk env.byte env.program env.program_len
          env.fall_off abs_path (of_list []) (pos 128)))
