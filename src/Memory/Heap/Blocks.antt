-- ===== src/Memory/Heap/Blocks.antt =====
-- memory/malloc.c: the blocks that a client holds which frees only what it holds.
use almost_os.Prelude.{
  ℕ, ◌+◌, ◌*◌, ◌≤◌, ◌<◌, ◌≡◌, refl, sym, ap, ap₂, ◌∙◌, ◌⊎◌, inl, inr, Option, none, some, List, [],
  ◌∷◌, ◌++◌, map, length, length-append, All, Absent, Distinct, count, count-append, arith, dec_lt,
  ltb, if◌then◌else◌,
}
use almost_os.Memory.Heap.{HeapBin, address, heap_malloc, heap_free}
use almost_os.Memory.Heap.Inv.{
  IsBin, address_lem, Outcome, null, heap_malloc-Outcome, heap_free_lem, heap_free-start,
}

-- The allocator, and the pointers that its client holds.
pub record Session : Type 0 where
  pub bin : HeapBin
  pub live : List ℕ

-- What a client may do: allocate any size, and free a pointer that it holds.
pub data Step (s : Session) : Session → Type 0 where
  grant :
      (size p : ℕ) (bin : HeapBin)
      → heap_malloc s.bin size ≡ (some p, bin)
      → Step s (record { bin = bin; live = p ∷ s.live })
  refuse :
      (size : ℕ) (bin : HeapBin)
      → heap_malloc s.bin size ≡ (none, bin)
      → Step s (record { bin = bin; live = s.live })
  release :
      (p : ℕ) (before after : List ℕ)
      → s.live ≡ before ++ p ∷ after
      → Step s (record { bin = heap_free s.bin (some p); live = before ++ after })

pub data Reach (s : Session) : Session → Type 0 where
  here : Reach s s
  next : {t u : Session} → Reach s t → Step t u → Reach s u

-- The first byte of block `i` of a buffer at `start`.
abbrev pub block : ℕ → ℕ → ℕ
block start i = start + i * 160

-- Two blocks of 160 bytes (128 and the red zone) share no byte.
abbrev pub Apart : ℕ → ℕ → Type 0
Apart p q = (p + 160 ≤ q) ⊎ (q + 160 ≤ p)

abbrev pub AllApart : List ℕ → Type 0
AllApart [] = Unit {0}
AllApart (p ∷ ps) = All (Apart p) ps × AllApart ps

-- The blocks `used`, which the client holds, and the `free` ones are the three blocks of the
-- buffer, each once.
pub record IsHeld (start : ℕ) (used free : List ℕ) (s : Session) : Type 0 where
  pub bin : IsBin s.bin free
  pub start_eq : s.bin.buffer_start ≡ start
  pub live_eq : s.live ≡ map (block start) used
  pub total : length used + length free ≡ 3
  pub once : (x : ℕ) → count x used + count x free ≡ (if ltb x 3 then 1 else 0)

abbrev pub Inv : ℕ → Session → Type 0
Inv start s = (used : List ℕ) × (free : List ℕ) × IsHeld start used free s

map-split :
    (f : ℕ → ℕ) (used before after : List ℕ) (p : ℕ)
    → map f used ≡ before ++ p ∷ after
    → (i : ℕ) × (xs : List ℕ) × (ys : List ℕ) × (used ≡ xs ++ i ∷ ys)
      × (f i ≡ p)
      × (map f (xs ++ ys) ≡ before ++ after)
map-split f [] [] after p e = cc
map-split f [] (b ∷ before) after p e = cc
map-split f (u ∷ used) [] after p e = (u, [], used, refl, cc, cc)
map-split f (u ∷ used) (b ∷ before) after p e =
    let (i, xs, ys, a, c, d) = map-split f used before after p (cc) in
    (i, u ∷ xs, ys, ap (λ t. u ∷ t) a, c, cc)

All_of_count : (xs : List ℕ) → ((x : ℕ) → 0 < count x xs → x < 3) → All (λ x. x < 3) xs
All_of_count [] h = tt
All_of_count (y ∷ ys) h = (h y (ground arith), All_of_count ys (λ x p. h x (ground arith)))

pub free-small :
    {start : ℕ} {used free : List ℕ} {s : Session}
    → IsHeld start used free s
    → All (λ x. x < 3) free
free-small {free = free} v = All_of_count free (λ x h. ground (arith, v.once x))

pub used-small :
    {start : ℕ} {used free : List ℕ} {s : Session}
    → IsHeld start used free s
    → All (λ x. x < 3) used
used-small {used = used} v = All_of_count used (λ x h. ground (arith, v.once x))

head-small : (free rest : List ℕ) {i : ℕ} → free ≡ i ∷ rest → All (λ x. x < 3) free → i < 3
head-small [] rest e h = absurd (cc)
head-small (x ∷ free) rest e h = ground arith

middle-small : (used xs ys : List ℕ) {i : ℕ} → used ≡ xs ++ i ∷ ys → All (λ x. x < 3) used → i < 3
middle-small used [] ys e h = head-small used ys e h
middle-small [] (x ∷ xs) ys e h = absurd (cc)
middle-small (u ∷ used) (x ∷ xs) ys e h = middle-small used xs ys (cc) h.1

grant-Inv :
    {start : ℕ} {used free : List ℕ} {s : Session} (r : Option ℕ × HeapBin)
    → IsHeld start used free s
    → Outcome s.bin free r
    → Inv start (record { bin = r.1; live = elim r.0 [ none ↦ s.live | some p ↦ p ∷ s.live ] })
grant-Inv {used = used} {free = free} r v (null bin b k) = (
  used,
  free,
  record {
    bin = b;
    start_eq = k ∙ v.start_eq;
    live_eq = v.live_eq;
    total = v.total;
    once = v.once;
  },
)
grant-Inv {start} {used = used} {free = free} {s = s} r v (Outcome.block i rest bin e b k) =
    let small : i < 3 = head-small free rest e (free-small v) in
    let here : address s.bin i ≡ block start i =
      address_lem v.bin i small ∙ ap (λ t. t + i * 160) v.start_eq in
    (
      i ∷ used,
      rest,
      record {
        bin = b;
        start_eq = k ∙ v.start_eq;
        live_eq = ap₂ ◌∷◌ here v.live_eq;
        total = omega (arith, v.total, ap length e);
        once = λ x. ground (arith, v.once x, ap (count x) e);
      },
    )

release-Inv :
    {start : ℕ} {used free : List ℕ} {s : Session} (p : ℕ) (before after : List ℕ)
    → IsHeld start used free s
    → s.live ≡ before ++ p ∷ after
    → Inv start (record { bin = heap_free s.bin (some p); live = before ++ after })
release-Inv {start} {used = used} {free = free} {s = s} p before after v e =
    let (i, xs, ys, split, at, rest) =
      map-split (block start) used before after p (sym v.live_eq ∙ e) in
    let small : i < 3 = middle-small used xs ys split (used-small v) in
    let here : address s.bin i ≡ p =
      address_lem v.bin i small ∙ ap (λ t. t + i * 160) v.start_eq ∙ at in
    let room : length free < 3 =
      omega (arith, v.total, ap length split, length-append xs (i ∷ ys)) in
    (
      xs ++ ys,
      i ∷ free,
      record {
        bin = rw (← here) (heap_free_lem v.bin i small room);
        start_eq = heap_free-start s.bin (some p) ∙ v.start_eq;
        live_eq = sym rest;
        total =
            omega (arith, v.total, ap length split, length-append xs (i ∷ ys), length-append xs ys);
        once = λ x.
            ground (
              arith,
              v.once x,
              ap (count x) split,
              count-append x xs (i ∷ ys),
              count-append x xs ys,
            );
      },
    )

Step-Inv : {start : ℕ} {s t : Session} → Step s t → Inv start s → Inv start t
Step-Inv {s = s} (grant size p bin e) (used, free, v) =
    let done : Outcome s.bin free (some p, bin) =
      rw e at (heap_malloc-Outcome free size v.bin (free-small v)) in
    grant-Inv (some p, bin) v done
Step-Inv {s = s} (refuse size bin e) (used, free, v) =
    let done : Outcome s.bin free (none, bin) =
      rw e at (heap_malloc-Outcome free size v.bin (free-small v)) in
    grant-Inv (none, bin) v done
Step-Inv (release p before after e) (used, free, v) = release-Inv p before after v e

-- Whatever a client does that frees only what it holds, the blocks it holds and the free ones stay
-- the three blocks of the buffer, each once.
pub Reach-Inv : {start : ℕ} {s t : Session} → Inv start s → Reach s t → Inv start t
Reach-Inv v here = v
Reach-Inv v (next r st) = Step-Inv st (Reach-Inv v r)

Apart-block :
    (start i : ℕ) (js : List ℕ) → Absent i js → All (Apart (block start i)) (map (block start) js)
Apart-block start i [] h = tt
Apart-block start i (j ∷ js) h = (apart, Apart-block start i js h.1)
  where
    apart : Apart (block start i) (block start j)
    apart = elim (dec_lt i j) [ yes lt ↦ inl (omega arith) | no ge ↦ inr (omega (arith, h.0)) ]

pub AllApart-blocks : (start : ℕ) (js : List ℕ) → Distinct js → AllApart (map (block start) js)
AllApart-blocks start [] h = tt
AllApart-blocks start (j ∷ js) h = (Apart-block start j js h.0, AllApart-blocks start js h.1)

pub In-blocks :
    (start : ℕ) (js : List ℕ)
    → All (λ j. j < 3) js
    → All (λ p. (start ≤ p) × (p + 160 ≤ start + 480)) (map (block start) js)
In-blocks start [] h = tt
In-blocks start (j ∷ js) h = ((omega arith, omega arith), In-blocks start js h.1)
