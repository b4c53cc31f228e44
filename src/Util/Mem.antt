-- ===== src/Util/Mem.antt =====
-- utils/util.c: `memory_is_equal`, `mem_copy` and `memset`. A NULL pointer is `none`, and the two
-- buffers of a copy do not overlap.
use almost_os.Prelude.{
  ℕ, zero, suc, ◌+◌, ◌<◌, ◌≤◌, ◌≡◌, ◌↔◌, refl, ap, fun_ext, Option, none, some, Bytes, store, arith,
  ltb, ◌==◌, if◌then◌else◌, u8, ℕ_discrete, Bool-cases, inl, inr, true, false,
}
use almost_os.Prelude.Int.{ℤ, negsuc, rounds, int_eq, int_lt, int_eq_lem}

-- The loop of `memory_is_equal`: `n` rounds from offset `i`.
unfoldable pub equal_from : ℕ → ℕ → Bytes → Bytes → ℕ → ℕ
equal_from zero i mem1 mem2 is_equal = is_equal
equal_from (suc n) i mem1 mem2 is_equal =
    equal_from n (i + 1) mem1 mem2 (if mem1 i == mem2 i then is_equal else 0)

-- `memory_is_equal`
unfoldable pub memory_is_equal : Option Bytes → ℤ → Option Bytes → ℤ → ℕ
memory_is_equal none size1 mem2 size2 = 0
memory_is_equal (some mem1) size1 none size2 = 0
memory_is_equal (some mem1) size1 (some mem2) size2 =
    if int_eq size1 size2 then equal_from (rounds size1) 0 mem1 mem2 1 else 0

-- The loop of `mem_copy`: `n` rounds from offset `i`.
unfoldable pub copy_from : ℕ → ℕ → Bytes → Bytes → Bytes
copy_from zero i destination source = destination
copy_from (suc n) i destination source = copy_from n (i + 1) (store destination i (source i)) source

-- The number of bytes that `mem_copy` takes.
abbrev pub copy_size : ℤ → ℤ → ℤ
copy_size destination_size source_size =
    if int_lt destination_size source_size then destination_size else source_size

-- `mem_copy`, with the destination after it.
unfoldable pub mem_copy : Option Bytes → ℤ → Option Bytes → ℤ → ℤ × Option Bytes
mem_copy none destination_size source source_size = (negsuc 0, none)
mem_copy (some destination) destination_size none source_size = (negsuc 0, some destination)
mem_copy (some destination) destination_size (some source) source_size =
    let size = copy_size destination_size source_size in
    (size, some (copy_from (rounds size) 0 destination source))

-- The loop of `memset`: `n` rounds from offset `i`.
unfoldable pub set_from : ℕ → ℕ → Bytes → ℕ → Bytes
set_from zero i p value = p
set_from (suc n) i p value = set_from n (i + 1) (store p i (u8 value)) value

-- `memset`
abbrev pub memset : Bytes → ℕ → ℕ → Bytes
memset ptr value num = set_from num 0 ptr value

copy_from_lem :
    (n i : ℕ) (destination source : Bytes) (k : ℕ)
    → copy_from n i destination source k
      ≡ (if ltb k i then destination k else if ltb k (i + n) then source k else destination k)
unfolding copy_from
copy_from_lem zero i destination source k = ground arith
copy_from_lem (suc n) i destination source k =
    ground (arith, copy_from_lem n (i + 1) (store destination i (source i)) source k)

-- `mem_copy` takes the smaller of the two sizes and returns it. The destination holds the source's
-- bytes below it, and its own from there on: a size below 0 copies nothing.
pub mem_copy_lem :
    (destination source : Bytes) (destination_size source_size : ℤ)
    → mem_copy (some destination) destination_size (some source) source_size ≡ (
      copy_size destination_size source_size,
      some (λ k.
          if ltb k (rounds (copy_size destination_size source_size))
          then source k
          else destination k),
    )
unfolding mem_copy
mem_copy_lem destination source destination_size source_size =
    ap (λ m. (copy_size destination_size source_size, some m))
      (fun_ext (λ k. ground (
        arith,
        copy_from_lem (rounds (copy_size destination_size source_size)) 0 destination source k,
      )))

agree-suc :
    (n i : ℕ) (mem1 mem2 : Bytes)
    → mem1 i ≡ mem2 i
    → ((k : ℕ) → i + 1 ≤ k → k < i + 1 + n → mem1 k ≡ mem2 k)
    → (k : ℕ) → i ≤ k
    → k < i + suc n
    → mem1 k ≡ mem2 k
agree-suc n i mem1 mem2 first others k low high = elim (ℕ_discrete k i) [
  | yes e ↦ rw e first
  | no ne ↦ others k (omega arith) (omega arith)
]

equal_from_lem :
    (n i : ℕ) (mem1 mem2 : Bytes) (is_equal : ℕ)
    → (equal_from n i mem1 mem2 is_equal ≡ 1)
      ↔ ((is_equal ≡ 1) × ((k : ℕ) → i ≤ k → k < i + n → mem1 k ≡ mem2 k))
unfolding equal_from
equal_from_lem zero i mem1 mem2 is_equal = (λ h. (h, λ k p q. absurd (omega arith)), λ h. h.0)
equal_from_lem (suc n) i mem1 mem2 is_equal = elim (ℕ_discrete (mem1 i) (mem2 i)) [
  | yes e ↦
      let test : (mem1 i == mem2 i) ≡ true = ground arith in
      let (forth, back) = equal_from_lem n (i + 1) mem1 mem2 is_equal in
      rw test (
        λ h. ((forth h).0, agree-suc n i mem1 mem2 e (forth h).1),
        λ h. back (h.0, λ k p q. h.1 k (omega arith) (omega arith)),
      )
  | no ne ↦
      let test : (mem1 i == mem2 i) ≡ false = ground arith in
      let (forth, back) = equal_from_lem n (i + 1) mem1 mem2 0 in
      rw test (
        λ h. absurd (omega (arith, (forth h).0)),
        λ h. absurd (ne (h.1 i (omega arith) (omega arith))),
      )
]

-- `memory_is_equal` answers 1 for two buffers exactly if their sizes are equal and so are their
-- bytes, one by one.
pub memory_is_equal_iff :
    (mem1 mem2 : Bytes) (size1 size2 : ℤ)
    → (memory_is_equal (some mem1) size1 (some mem2) size2 ≡ 1)
      ↔ ((size1 ≡ size2) × ((k : ℕ) → k < rounds size1 → mem1 k ≡ mem2 k))
unfolding memory_is_equal
memory_is_equal_iff mem1 mem2 size1 size2 = elim (Bool-cases (int_eq size1 size2)) [
  | inl e ↦
      let (forth, back) = equal_from_lem (rounds size1) 0 mem1 mem2 1 in
      rw e (
        λ h. ((int_eq_lem size1 size2).0 e, λ k p. (forth h).1 k (omega arith) (omega arith)),
        λ h. back (refl, λ k p q. h.1 k (omega arith)),
      )
  | inr ne ↦
      rw ne
        (λ h. absurd (omega arith), λ h. absurd (ground (arith, (int_eq_lem size1 size2).1 h.0)))
]
