-- ===== src/Util/CString.antt =====
-- stdlib_c/string.c: `strlen` and `strncmp`.
use almost_os.Prelude.{
  ℕ, zero, suc, ◌+◌, ◌-◌, ◌^◌, not, ◌&&◌, Option, none, some, Bytes, ◌==◌, leb, if◌then◌else◌,
}
use almost_os.Prelude.Int.{ℤ, pos, negsuc}

-- The loop of `strlen` from offset `i`; `none` after `fuel` bytes without a terminator.
unfoldable pub strlen_from : ℕ → ℕ → Bytes → Option ℕ
strlen_from zero i s = none
strlen_from (suc fuel) i s =
    let rest = strlen_from fuel (i + 1) s in if s i == 0 then some i else rest

-- `strlen`: the whole address space bounds the loop.
unfoldable pub strlen : Bytes → Option ℕ
strlen s = strlen_from (2 ^ 32) 0 s

-- `a - b` of two unsigned characters, as an `int`
abbrev pub char_difference : ℕ → ℕ → ℤ
char_difference a b = if leb b a then pos (a - b) else negsuc (b - a - 1)

-- `strncmp` from offset `i`, with `n` characters left to compare.
unfoldable pub strncmp_from : ℕ → ℕ → Bytes → Bytes → ℤ
strncmp_from zero i a b = pos 0
strncmp_from (suc n) i a b =
    let rest = strncmp_from n (i + 1) a b in
    if not (a i == 0) && (a i == b i) then rest else char_difference (a i) (b i)

-- `strncmp`
abbrev pub strncmp : Bytes → Bytes → ℕ → ℤ
strncmp a b n = strncmp_from n 0 a b
