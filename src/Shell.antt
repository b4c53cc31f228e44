-- ===== src/Shell.antt =====
-- shell/shell.c: the input line, and the choice of a command. What the terminal shows is left out.
pub mod Arguments
pub mod Paths
pub mod Commands
pub mod Output
pub mod Line
use almost_os.Prelude.{
  ℕ, zero, suc, ◌+◌, ◌-◌, Bool, true, false, ◌||◌, Option, none, some, List, [], ◌∷◌, Bytes,
  advance, store, get_elem?, ltb, ◌==◌, if◌then◌else◌,
}
use almost_os.Prelude.Maybe.{◌>>=◌, option_map}
use almost_os.Memory.Heap.{HeapBin, heap_free}
use almost_os.Scheduler.{Scheduler}
use almost_os.Shell.Arguments.{Parsed, parse_arguments}
use almost_os.Shell.Paths.{execute_cd}
use almost_os.Shell.Commands.{Surroundings, execute_kill, execute_run}

-- The commands of `shell_execute_command`, and the two ways in which it does nothing.
pub data Command : Type 0 where
  cd : Command
  cat : Command
  dump_data : Command
  hexdump : Command
  help : Command
  kill : Command
  ls : Command
  ps : Command
  run : Command
  no_op : Command
  unknown : Command

-- The tests of `shell_execute_command` on the characters of the input.
unfoldable pub choose_command : Bytes → Command
choose_command input =
    if input 0 == 99
    then (if input 1 == 100 then cd else cat)
    else if input 0 == 100
    then dump_data
    else if input 0 == 104
    then (if input 2 == 120 then hexdump else help)
    else if input 0 == 107
    then kill
    else if input 0 == 108
    then ls
    else if input 0 == 112
    then ps
    else if input 0 == 114
    then run
    else if input 0 == 0
    then no_op
    else unknown

-- The state of the shell, and what its commands change.
pub record Shell : Type 0 where
  pub input_line : Bytes
  pub input_len : ℕ
  pub current_dir : Bytes
  pub heap : HeapBin
  pub processes : Scheduler
  pub file_buffer : Bytes

-- `argv[k]`, if there are so many arguments.
abbrev pub argument : Parsed → List ℕ → ℕ → Option Bytes
argument a argv k =
    if ltb k a.argc then option_map (λ p. advance a.line p) (get_elem? argv k) else none

-- What a command changes: `cd`, `kill` and `run` do, the others only print.
unfoldable pub apply_command : ℕ → Surroundings → Command → Parsed → List ℕ → Shell → Option Shell
apply_command fuel env cd a argv s =
    option_map (λ dir. record s { current_dir = dir })
      (execute_cd fuel s.current_dir (argument a argv 1))
apply_command fuel env kill a argv s =
    some (record s { processes = execute_kill s.processes (argument a argv 1) })
apply_command fuel env run a argv s =
    option_map (λ (processes, filled). record s { processes = processes; file_buffer = filled })
      (execute_run fuel env s.current_dir s.processes s.file_buffer (argument a argv 1)
        (argument a argv 2))
apply_command fuel env cat a argv s = some s
apply_command fuel env dump_data a argv s = some s
apply_command fuel env hexdump a argv s = some s
apply_command fuel env help a argv s = some s
apply_command fuel env ls a argv s = some s
apply_command fuel env ps a argv s = some s
apply_command fuel env no_op a argv s = some s
apply_command fuel env unknown a argv s = some s

-- `shell_execute_command` on the input line; `none` where a loop does not end within the fuel.
unfoldable pub shell_execute_command : ℕ → Surroundings → Shell → Option Shell
unfolding choose_command
shell_execute_command fuel env s = parse_arguments fuel s.heap s.input_line >>= (λ a.
    let parsed = record s { heap = a.heap; input_line = a.line } in
    elim a.argv [
      | none ↦ some parsed
      | some (block, argv) ↦
          option_map (λ (s' : Shell). record s' { heap = heap_free s'.heap (some block) })
            (apply_command fuel env (choose_command a.line) a argv parsed)
    ])

-- `sizeof input_line`
abbrev pub input_line_size : ℕ
input_line_size = 50

-- A key that is neither Enter nor a deletion.
unfoldable pub add_to_line : Shell → ℕ → Shell
add_to_line s key = record s {
  input_len = s.input_len + 1;
  input_line =
      store (store (store s.input_line s.input_len key) (s.input_len + 1) 0) input_line_size 0;
}

-- The key 8 or 127.
unfoldable pub delete_from_line : Shell → Shell
delete_from_line s =
    if ltb 0 s.input_len
    then record s {
      input_len = s.input_len - 1;
      input_line = store s.input_line (s.input_len - 1) 0;
    }
    else s

-- `shell_on_input`. The line is never shorter than its length says, but its end is not looked at.
unfoldable pub shell_on_input : ℕ → Surroundings → Shell → ℕ → Option Shell
shell_on_input fuel env s key =
    if key == 10 || key == 13
    then option_map
        (λ (s' : Shell). record s' { input_len = 0; input_line = store s'.input_line 0 0 })
        (shell_execute_command fuel env s)
    else if key == 8 || key == 127
    then some (delete_from_line s)
    else some (add_to_line s key)
