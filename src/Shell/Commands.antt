-- ===== src/Shell/Commands.antt =====
-- shell/cmd_kill.c, cmd_run.c, cmd_cat.c and cmd_hexdump.c: what the commands do to the processes,
-- the bytes that `cat` shows and the lines that `dump` prints. Their other messages are left out.
use almost_os.Prelude.{
  ℕ, zero, suc, ◌+◌, ◌-◌, Option, none, some, List, [], ◌∷◌, Bytes, of_list, store, ltb, ◌==◌,
  if◌then◌else◌, u32,
}
use almost_os.Prelude.Int.{ℤ, pos, rounds, int_lt, is_zero}
use almost_os.Prelude.Maybe.{◌>>=◌, option_map}
use almost_os.Util.CString.{strncmp}
use almost_os.TinyFs.Disk.{Disk}
use almost_os.TinyFs.Rootdir.{Junk}
use almost_os.Router.{MountTable, read_file}
use almost_os.Shell.Paths.{absolute_path}
use almost_os.Util.Numbers.{atoi, hex_to_long, long_to_hex}
use almost_os.Scheduler.{Scheduler, create_process, kill_process}

-- `execute__kill`, with the first argument if there is one
unfoldable pub execute_kill : Scheduler → Option Bytes → Scheduler
execute_kill s none = s
execute_kill s (some str_pid) = kill_process s (atoi (some str_pid))

-- `sizeof test_list / sizeof test_list[0]`
abbrev pub test_count : ℕ
test_count = 5

-- `command_run_test`
unfoldable pub command_run_test : (ℕ → ℕ × ℕ) → Scheduler → Bytes → Scheduler
command_run_test test_list s test_num_str =
    let test_num = atoi (some test_num_str) in
    let (name, process_ptr) = test_list test_num in
    if ltb test_num test_count then create_process s (some name) process_ptr else s

-- What `run` finds outside of the shell: the tests, with the addresses of their names and functions,
-- the file systems as `read_file` takes them, and where `abs_path` and `file_buffer` lie.
pub record Surroundings : Type 0 where
  pub test_list : ℕ → ℕ × ℕ
  pub mount_table : MountTable
  pub disk : Disk
  pub junk : Junk
  pub byte : ℕ
  pub program : Bytes
  pub program_len : ℕ
  pub fall_off : ℤ
  pub abs_path_address : ℕ
  pub file_buffer_address : ℕ

-- `test`
abbrev pub subcommand : Bytes
subcommand = of_list (116 ∷ 101 ∷ 115 ∷ 116 ∷ [])

-- `run` of a file: the processes and the static `file_buffer`.
unfoldable pub run_file :
    ℕ → Surroundings → Bytes → Scheduler → Bytes → Bytes → Option (Scheduler × Bytes)
run_file fuel env current_dir s file_buffer filename =
    absolute_path fuel current_dir filename >>= (λ abs_path.
      option_map
        (λ (ret_len, filled). (
          if int_lt (pos 0) ret_len
              then create_process s (some env.abs_path_address) env.file_buffer_address
              else s,
          filled,
        ))
        (read_file env.mount_table env.disk env.junk env.byte env.program env.program_len
          env.fall_off abs_path file_buffer (pos 256)))

-- `execute__run`, with the first and second argument if there are such
unfoldable pub execute_run :
    ℕ
    → Surroundings
    → Bytes
    → Scheduler
    → Bytes
    → Option Bytes
    → Option Bytes
    → Option (Scheduler × Bytes)
unfolding command_run_test run_file
execute_run fuel env current_dir s file_buffer none second = some (s, file_buffer)
execute_run fuel env current_dir s file_buffer (some first) second =
    if is_zero (strncmp first subcommand 30)
    then some (
      elim second [ none ↦ s | some test_num_str ↦ command_run_test env.test_list s test_num_str ],
      file_buffer,
    )
    else run_file fuel env current_dir s file_buffer first

-- The bytes that `command_cat` shows: `n` of them from index `i` on, those below 32 as dots.
unfoldable pub cat_from : ℕ → ℕ → Bytes → List ℕ
cat_from zero i buffer = []
cat_from (suc n) i buffer = (if ltb (buffer i) 32 then 46 else buffer i) ∷ cat_from n (i + 1) buffer

-- `command_cat`; `buffer` is what its local buffer of 1024 bytes holds at first.
unfoldable pub command_cat : ℕ → Surroundings → Bytes → Bytes → Bytes → Option (List ℕ)
command_cat fuel env current_dir buffer filename =
    absolute_path fuel current_dir filename >>= (λ abs_path.
      option_map (λ (ret_len, filled). cat_from (rounds ret_len) 0 (store filled 1023 0))
        (read_file env.mount_table env.disk env.junk env.byte env.program env.program_len
          env.fall_off abs_path buffer (pos 1024)))

abbrev pub bytes_per_line : ℕ
bytes_per_line = 16

-- `START_OF_ASCII_TEXT`
abbrev pub start_of_ascii_text : ℕ
start_of_ascii_text = 62

-- The loop over the bytes of a line in hexadecimal: `n` bytes from number `hex_no` on.
unfoldable pub dump_hex : ℕ → ℕ → ℕ → Bytes → ℕ → Bytes → Bytes
dump_hex zero hex_no hex_line_offset memory offset line = line
dump_hex (suc n) hex_no hex_line_offset memory offset line =
    let digits =
      (long_to_hex (memory (offset + hex_no)) (λ i. line (hex_line_offset + i)) 2 16).0 in
    dump_hex n (hex_no + 1) (hex_line_offset + (if hex_no == 7 then 4 else 3)) memory offset
      (λ i. if ltb i hex_line_offset then line i else digits (i - hex_line_offset))

-- A `char` below 32, which those above 127 are, is shown as a dot.
abbrev pub shown_character : ℕ → ℕ
shown_character c = if ltb c 32 then 46 else if ltb c 128 then c else 46

-- The loop over the bytes of a line as characters.
unfoldable pub dump_ascii : ℕ → ℕ → Bytes → ℕ → Bytes → Bytes
dump_ascii zero char_no memory offset line = line
dump_ascii (suc n) char_no memory offset line =
    dump_ascii n (char_no + 1) memory offset
      (store line (start_of_ascii_text + char_no) (shown_character (memory (offset + char_no))))

-- One row of `execute__dump_data`; `template` is the text that `line` starts with.
unfoldable pub dump_row : Bytes → Bytes → ℕ → Bytes
dump_row template memory offset =
    let addressed = (long_to_hex offset template 8 16).0 in
    dump_ascii bytes_per_line 0 memory offset (dump_hex bytes_per_line 0 10 memory offset addressed)

-- The rows of `execute__dump_data`, `n` of them.
unfoldable pub dump_rows : ℕ → Bytes → Bytes → ℕ → List Bytes
dump_rows zero template memory offset = []
dump_rows (suc n) template memory offset =
    dump_row template memory offset ∷ dump_rows n template memory (offset + bytes_per_line)

-- `execute__dump_data`, for offsets below 2^31: the static offset after it, and the rows. Without an argument it goes on
-- behind the rows of the last call.
unfoldable pub execute_dump_data : Bytes → Bytes → ℕ → Option Bytes → ℕ × List Bytes
execute_dump_data template memory previous_offset none =
    let offset = u32 (previous_offset + 128) in (offset, dump_rows 8 template memory offset)
execute_dump_data template memory previous_offset (some arg) =
    let offset = hex_to_long (some arg) in (offset, dump_rows 8 template memory offset)
