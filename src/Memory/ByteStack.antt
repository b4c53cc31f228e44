-- ===== src/Memory/ByteStack.antt =====
-- memory/stack.c: a stack of bytes in a buffer that the caller provides.
-- A handle or an out-pointer that may be NULL is an option.
pub mod Lifo
pub mod Refine
use almost_os.Prelude.{
  ℕ, ◌+◌, ◌-◌, Bool, true, false, Option, none, some, Bytes, store, ltb, ◌==◌, if◌then◌else◌,
}

-- `stack_handle_t`: `stack_pointer` is an offset from `buffer_start`, and `buffer` the memory there.
pub record Stack : Type 0 where
  pub buffer_size : ℕ
  pub buffer : Bytes
  pub stack_pointer : ℕ

-- `stack_init`
unfoldable pub init : Option Stack → Option Bytes → ℕ → Bool × Option Stack
init none buffer size = (false, none)
init (some handle) none size = (false, some handle)
init (some handle) (some buffer) size =
    if size == 0
    then (false, some handle)
    else (true, some (record { buffer_size = size; buffer = buffer; stack_pointer = 0 }))

-- `stack_pointer > buffer_start + buffer_size - 1`
abbrev pub is_full : Stack → Bool
is_full s = ltb s.buffer_size (s.stack_pointer + 1)

-- `stack_push`
unfoldable pub push : Option Stack → ℕ → Bool × Option Stack
push none value = (false, none)
push (some s) value = if is_full s then (false, some s) else (
  true,
  some (record s {
    buffer = store s.buffer s.stack_pointer value;
    stack_pointer = s.stack_pointer + 1;
  }),
)

-- `stack_pop`: what is left in `*value` stands second; a NULL `value` is `none`.
unfoldable pub pop : Option Stack → Option ℕ → Bool × Option ℕ × Option Stack
pop none value = (false, value, none)
pop (some s) none = (false, none, some s)
pop (some s) (some value) = if s.stack_pointer == 0 then (false, some value, some s) else (
  true,
  some (s.buffer (s.stack_pointer - 1)),
  some (record s {
    buffer = store s.buffer (s.stack_pointer - 1) 0;
    stack_pointer = s.stack_pointer - 1;
  }),
)
