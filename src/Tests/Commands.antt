-- ===== src/Tests/Commands.antt =====
-- The shell and the system calls at concrete inputs.
use almost_os.Prelude.{
  ℕ, zero, suc, ◌+◌, ◌<◌, ◌≤◌, ◌≡◌, ◌≢◌, refl, false, none, some, [], ◌∷◌, Bytes, of_list, arith,
}
use almost_os.Prelude.Int.{pos}
use almost_os.Memory.ByteStack.{pop}
use almost_os.Memory.Heap.{HeapBin, heap_malloc}
use almost_os.Scheduler.{Scheduler, cleared}
use almost_os.Shell.Paths.{slash, command_cd}
use almost_os.Shell.Paths.Cd.{IsString, command_cd_lem}
use almost_os.Shell.{Shell}
use almost_os.Shell.Commands.{Surroundings}
use almost_os.Shell.Line.{IsLine, SameRest, type_keys, edits, type_keys-edits}
use almost_os.Shell.Arguments.{parse_arguments}
use almost_os.Shell.Arguments.Words.{Word}
use almost_os.Shell.Arguments.Words.Parse.{Ended, parse_arguments-words}
use almost_os.SystemCalls.{Frame}

abbrev zeros : Bytes
zeros = of_list []

-- A heap with one free block, number 2.
abbrev one_block : HeapBin
one_block = record {
  block_size = 128;
  block_count = 3;
  buffer_size = 480;
  buffer_start = 4096;
  free_blocks_stack =
      some (record { buffer_size = 3; buffer = of_list (2 ∷ []); stack_pointer = 1 });
}

abbrev no_block : HeapBin
no_block = (heap_malloc one_block 8).1

granted : heap_malloc one_block 8 ≡ (some 4416, no_block)
unfolding heap_malloc pop
granted = refl

-- ` ls  /m `
abbrev list_m : Bytes
list_m = of_list (32 ∷ 108 ∷ 115 ∷ 32 ∷ 32 ∷ 47 ∷ 109 ∷ 32 ∷ [])

space_first : (x : ℕ) → x < 1 → list_m x ≡ 32
space_first zero h = refl
space_first (suc x) h = absurd (omega arith)

Word-ls : Word list_m 1 2
Word-ls = (omega arith, at)
  where
    at : (x : ℕ) → 1 ≤ x → x < 3 → (list_m x ≢ 0) × (list_m x ≢ 32)
    at zero low high = absurd (omega arith)
    at (suc zero) low high = (λ e. omega arith, λ e. omega arith)
    at (suc (suc zero)) low high = (λ e. omega arith, λ e. omega arith)
    at (suc (suc (suc x))) low high = absurd (omega arith)

gap_m : (x : ℕ) → 3 ≤ x → x < 5 → list_m x ≡ 32
gap_m (suc (suc (suc zero))) low high = refl
gap_m (suc (suc (suc (suc zero)))) low high = refl
gap_m zero low high = absurd (omega arith)
gap_m (suc zero) low high = absurd (omega arith)
gap_m (suc (suc zero)) low high = absurd (omega arith)
gap_m (suc (suc (suc (suc (suc x))))) low high = absurd (omega arith)

Word-m : Word list_m 5 2
Word-m = (omega arith, at)
  where
    at : (x : ℕ) → 5 ≤ x → x < 7 → (list_m x ≢ 0) × (list_m x ≢ 32)
    at (suc (suc (suc (suc (suc zero))))) low high = (λ e. omega arith, λ e. omega arith)
    at (suc (suc (suc (suc (suc (suc zero)))))) low high = (λ e. omega arith, λ e. omega arith)
    at zero low high = absurd (omega arith)
    at (suc zero) low high = absurd (omega arith)
    at (suc (suc zero)) low high = absurd (omega arith)
    at (suc (suc (suc zero))) low high = absurd (omega arith)
    at (suc (suc (suc (suc zero)))) low high = absurd (omega arith)
    at (suc (suc (suc (suc (suc (suc (suc x))))))) low high = absurd (omega arith)

last_space : (x : ℕ) → 7 ≤ x → x < 8 → list_m x ≡ 32
last_space x low high = let e : x ≡ 7 = omega arith in rw e refl

parse_arguments-words_example :
    (s' : Bytes) × (parse_arguments 12 one_block list_m
      ≡ some (record { argc = 2; argv = some (4416, 1 ∷ 5 ∷ []); heap = no_block; line = s' }))
    × Ended list_m s' 1 2 ((2, 2) ∷ [])
parse_arguments-words_example =
    parse_arguments-words list_m 1 2 1 12 ((2, 2) ∷ []) one_block no_block 4416 space_first Word-ls
      (omega arith, gap_m, Word-m, tt) last_space refl (λ e. omega arith) (omega arith)
      (omega arith) granted

abbrev idle : Scheduler
idle = record {
  process_list = λ i. cleared;
  current_process_index = 0;
  process_stack_memory_base = 0;
  free_blocks_stack = none;
}

abbrev shell : Shell
shell = record {
  input_line = zeros;
  input_len = 0;
  current_dir = of_list (47 ∷ []);
  heap = one_block;
  processes = idle;
  file_buffer = zeros;
}

shell-IsLine : IsLine shell []
shell-IsLine = record { len = refl; content = λ j h. absurd (omega arith); end = refl }

abbrev surroundings : Surroundings
surroundings = record {
  test_list = λ i. (0, 0);
  mount_table = λ i. record { fs_type = 0; directory_path = zeros };
  disk = record {
    mounted = false;
    image = zeros;
    cluster_size = 0;
    cluster_count = 0;
    fat_cluster_size = 0;
    fat_cluster_count = 0;
    rootdir_cluster_size = 0;
  };
  junk = record {
    entry_is_used = 0;
    high_val = 0;
    low_val = 0;
    entry = record { name = zeros; file_size = 0; data_cluster = 0 };
  };
  byte = 0;
  program = zeros;
  program_len = 0;
  fall_off = pos 0;
  abs_path_address = 0;
  file_buffer_address = 0;
}

-- `l`, `d`, a deletion, `s`
type_keys-edits_example :
    (s' : Shell) × (type_keys 20 surroundings shell (108 ∷ 100 ∷ 8 ∷ 115 ∷ []) ≡ some s')
    × IsLine s' (edits [] (108 ∷ 100 ∷ 8 ∷ 115 ∷ []))
    × SameRest shell s'
type_keys-edits_example =
    type_keys-edits 20 surroundings shell [] (108 ∷ 100 ∷ 8 ∷ 115 ∷ []) shell-IsLine (omega arith) (
      (λ e. omega arith, λ e. omega arith),
      (
        (λ e. omega arith, λ e. omega arith),
        ((λ e. omega arith, λ e. omega arith), ((λ e. omega arith, λ e. omega arith), tt)),
      ),
    )

abbrev full_shell : Shell
full_shell = record shell { input_len = 52 }

abbrev frame : Frame
frame = record { local = 5000; buffer = zeros; numbuf = zeros }

-- `ok` at address 0
abbrev ok_memory : Bytes
ok_memory = of_list (111 ∷ 107 ∷ [])

inner_root : (j : ℕ) → j < 1 → slash j ≢ 0
inner_root zero h = λ e. omega arith
inner_root (suc j) h = absurd (omega arith)

root-IsString : IsString slash 1
root-IsString = record { inner = inner_root; end = refl }

-- `ab`
abbrev folder : Bytes
folder = of_list (97 ∷ 98 ∷ [])

inner_folder : (j : ℕ) → j < 2 → folder j ≢ 0
inner_folder zero h = λ e. omega arith
inner_folder (suc zero) h = λ e. omega arith
inner_folder (suc (suc j)) h = absurd (omega arith)

folder-IsString : IsString folder 2
folder-IsString = record { inner = inner_folder; end = refl }

command_cd_lem_example :
    (dir : Bytes) × (command_cd 100 slash folder ≡ some dir)
    × IsString dir 4
    × ((j : ℕ) → j < 1 → dir j ≡ slash j)
    × ((j : ℕ) → j < 2 → dir (1 + j) ≡ folder j)
    × (dir 3 ≡ 47)
command_cd_lem_example =
    command_cd_lem 100 1 1 slash folder root-IsString folder-IsString (omega arith)
      (λ e. omega arith) (λ e. omega arith) (omega arith)
