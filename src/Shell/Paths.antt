-- ===== src/Shell/Paths.antt =====
-- shell/shell.c and the commands: the current directory, and paths that are relative to it. The
-- fuel is that of the searches for the end of a string.
pub mod Cd
use almost_os.Prelude.{
  ℕ, ◌+◌, ◌-◌, Option, none, some, [], ◌∷◌, Bytes, of_list, store, ◌==◌, if◌then◌else◌,
}
use almost_os.Prelude.Int.{pos}
use almost_os.Prelude.Maybe.{◌>>=◌, option_map, option_or}
use almost_os.Util.Mem.{mem_copy}
use almost_os.Util.Strings.{strlen_unsafe, append_string}

-- `sizeof current_dir`, and `sizeof abs_path` of the commands
abbrev pub path_size : ℕ
path_size = 100

abbrev pub no_path : Bytes
no_path = of_list []

-- `set_current_dir`
unfoldable pub set_current_dir : Bytes → Bytes → Bytes
set_current_dir current_dir path =
    let copied =
      mem_copy (some current_dir) (pos path_size) (some path)
        (pos (strlen_unsafe (some path) + 1)) in
    store (option_or copied.1 current_dir) (path_size - 1) 0

-- What `cd`, `cat`, `hex` and `run` make of their argument: a path that begins with `/` is taken as
-- it is, any other is appended to the current directory.
unfoldable pub absolute_path : ℕ → Bytes → Bytes → Option Bytes
absolute_path fuel current_dir arg =
    let copied =
      mem_copy (some no_path) (pos path_size) (some arg) (pos (strlen_unsafe (some arg) + 1)) in
    let joined =
      append_string fuel no_path path_size current_dir (strlen_unsafe (some current_dir) + 1)
      >>= (λ dir. append_string fuel dir path_size arg (strlen_unsafe (some arg) + 1)) in
    if arg 0 == 47 then some (option_or copied.1 no_path) else joined

-- `ls` without a path: the current directory, with one byte less copied than the others take.
unfoldable pub list_path : ℕ → Bytes → Option Bytes → Option Bytes
unfolding absolute_path
list_path fuel current_dir none =
    append_string fuel no_path path_size current_dir (strlen_unsafe (some current_dir))
list_path fuel current_dir (some arg) = absolute_path fuel current_dir arg

-- `/`
abbrev pub slash : Bytes
slash = of_list (47 ∷ [])

-- `command_cd`: the new current directory. A path is not empty, as its last character is read.
unfoldable pub command_cd : ℕ → Bytes → Bytes → Option Bytes
unfolding absolute_path set_current_dir
command_cd fuel current_dir arg_path = absolute_path fuel current_dir arg_path >>= (λ abs_path.
    option_map (set_current_dir current_dir) (
      if abs_path (strlen_unsafe (some abs_path) - 1) == 47
      then some abs_path
      else append_string fuel abs_path path_size slash 2))

-- `execute__cd`, with the first argument if there is one
abbrev pub execute_cd : ℕ → Bytes → Option Bytes → Option Bytes
execute_cd fuel current_dir none = command_cd fuel current_dir slash
execute_cd fuel current_dir (some arg) = command_cd fuel current_dir arg
