-- ===== src/Prelude/Buffers.antt =====
-- Byte memory seen from a pointer: the byte at each offset. Reading or writing past the end of an
-- object reaches whatever the memory holds there, as it does in C.
use Prim.Native.Nat.{ℕ, zero, suc, ◌+◌, ◌%◌}
use mathlib.Core.Path.{◌≡◌}
use mathlib.Core.Logic.{◌≢◌}
use mathlib.Core.List.{List, [], ◌∷◌}
use native.Mathlib.Omega.{arith}
use almost_os.Prelude.Tests.{◌==◌, if◌then◌else◌}

abbrev pub Bytes : Type 0
Bytes = ℕ → ℕ

-- `m[p] = v`
abbrev pub store : Bytes → ℕ → ℕ → Bytes
store m p v q = if q == p then v else m q

-- `m + k`, a pointer moved forward
abbrev pub advance : Bytes → ℕ → Bytes
advance m k i = m (k + i)

-- The bytes of a literal, followed by zeros.
abbrev pub of_list : List ℕ → Bytes
of_list [] i = 0
of_list (x ∷ xs) zero = x
of_list (x ∷ xs) (suc i) = of_list xs i

-- The `n` bytes from offset `i` on.
abbrev pub bytes_of : Bytes → ℕ → ℕ → List ℕ
bytes_of m i zero = []
bytes_of m i (suc n) = m i ∷ bytes_of m (i + 1) n

pub store_self : (m : Bytes) (p v : ℕ) → store m p v p ≡ v
store_self m p v = ground arith

pub store-ne : (m : Bytes) (p v q : ℕ) → q ≢ p → store m p v q ≡ m q
store-ne m p v q h = ground arith

-- Values kept in unsigned machine words.
abbrev pub u8 : ℕ → ℕ
u8 n = n % 256

abbrev pub u16 : ℕ → ℕ
u16 n = n % 65536

abbrev pub u32 : ℕ → ℕ
u32 n = n % 4294967296
