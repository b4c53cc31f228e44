-- ===== src/Memory/ByteStack/Refine.antt =====
-- memory/stack.c and the bounded stack of its bytes.
use almost_os.Prelude.{
  ℕ, zero, suc, ◌+◌, ◌-◌, ◌≤◌, ◌<◌, ◌≡◌, ◌≢◌, inl, inr, refl, ap, ap₂, ◌∙◌, true, false, Option,
  none, some, List, [], ◌∷◌, length, Bytes, store, store_self, store-ne, arith, Bool-cases, lt→ltb,
  ℕ_discrete, if◌then◌else◌,
}
use almost_os.Memory.ByteStack.{Stack, init, is_full, push, pop}
use almost_os.Memory.ByteStack.Lifo
use almost_os.Memory.ByteStack.Lifo.{Op, push_op, pop_op, Reply}

-- The bytes at offsets below `n`, the last first.
abbrev pub below : Bytes → ℕ → List ℕ
below m zero = []
below m (suc n) = m n ∷ below m n

abbrev pub contents : Stack → List ℕ
contents s = below s.buffer s.stack_pointer

-- What a pop leaves in `*value`: the byte popped, or the old content.
abbrev pub get_or_value : ℕ → Option ℕ → ℕ
get_or_value value none = value
get_or_value value (some x) = x

pub record IsValid (s : Stack) : Type 0 where
  pub pointer_in : s.stack_pointer ≤ s.buffer_size

pub length-below : (m : Bytes) (n : ℕ) → length (below m n) ≡ n
length-below m zero = refl
length-below m (suc n) = ap suc (length-below m n)

below-store : (m : Bytes) (p v n : ℕ) → n ≤ p → below (store m p v) n ≡ below m n
below-store m p v zero h = refl
below-store m p v (suc n) h =
    ap₂ ◌∷◌ (store-ne m p v n (omega arith)) (below-store m p v n (omega arith))

below-push : (m : Bytes) (n v : ℕ) → below (store m n v) (n + 1) ≡ v ∷ below m n
below-push m n v =
    let e : n + 1 ≡ suc n = omega arith in
    rw e (ap₂ ◌∷◌ (store_self m n v) (below-store m n v n (omega arith)))

below-none : (m : Bytes) (n : ℕ) → n ≡ 0 → below m n ≡ []
below-none m zero h = refl
below-none m (suc n) h = absurd (omega arith)

below-pop : (m : Bytes) (n : ℕ) → n ≢ 0 → below m n ≡ m (n - 1) ∷ below m (n - 1)
below-pop m zero h = absurd (h refl)
below-pop m (suc n) h = ap (λ k. m k ∷ below m k) (omega arith)

-- What `stack_init` accepts is an empty stack in the given buffer, which takes `size` bytes.
pub init-empty :
    (old : Stack) (buffer : Bytes) (size : ℕ)
    → 0 < size
    → (s : Stack) × (init (some old) (some buffer) size ≡ (true, some s))
      × IsValid s
      × (contents s ≡ [])
      × (s.buffer_size ≡ size)
unfolding init
init-empty old buffer size h = (
  record { buffer_size = size; buffer = buffer; stack_pointer = 0 },
  ground arith,
  omega arith,
  refl,
  refl,
)

-- `stack_push` answers as the bounded stack does, and leaves the handle holding its bytes.
pub push_refines :
    (s : Stack) (x : ℕ)
    → IsValid s
    → (s' : Stack) × (push (some s) x ≡ ((Lifo.push s.buffer_size (contents s) x).0, some s'))
      × (contents s' ≡ (Lifo.push s.buffer_size (contents s) x).1)
      × IsValid s'
      × (s'.buffer_size ≡ s.buffer_size)
unfolding push Lifo.push
push_refines s x v = elim (Bool-cases (is_full s)) [
  | inl full ↦ (
    s,
    ground (arith, length-below s.buffer s.stack_pointer),
    ground (arith, length-below s.buffer s.stack_pointer),
    v,
    refl,
  )
  | inr room ↦ (
    record s { buffer = store s.buffer s.stack_pointer x; stack_pointer = s.stack_pointer + 1 },
    ground (arith, length-below s.buffer s.stack_pointer),
    ground (arith, length-below s.buffer s.stack_pointer, below-push s.buffer s.stack_pointer x),
    ground arith,
    refl,
  )
]

-- `stack_pop` answers as the bounded stack does: it hands out the last byte pushed, or leaves
-- `*value` alone when the stack is empty.
pub pop_refines :
    (s : Stack) (value : ℕ)
    → IsValid s
    → (s' : Stack) × (pop (some s) (some value)
        ≡ ((Lifo.pop (contents s)).0, some (get_or_value value (Lifo.pop (contents s)).1), some s'))
      × (contents s' ≡ (Lifo.pop (contents s)).2)
      × IsValid s'
      × (s'.buffer_size ≡ s.buffer_size)
unfolding pop Lifo.pop
pop_refines s value v = elim (ℕ_discrete s.stack_pointer 0) [
  | yes e ↦ (
    s,
    ground (arith, below-none s.buffer s.stack_pointer),
    simp (below-none s.buffer s.stack_pointer e),
    v,
    refl,
  )
  | no n ↦ (
    record s {
      buffer = store s.buffer (s.stack_pointer - 1) 0;
      stack_pointer = s.stack_pointer - 1;
    },
    ground (arith, below-pop s.buffer s.stack_pointer n),
    ground (
      arith,
      below-pop s.buffer s.stack_pointer n,
      below-store s.buffer (s.stack_pointer - 1) 0 (s.stack_pointer - 1),
    ),
    ground arith,
    refl,
  )
]

-- A handle that holds bytes hands out the last one, and keeps the others.
pub pop-cons :
    (s : Stack) (value x : ℕ) (xs : List ℕ)
    → IsValid s
    → contents s ≡ x ∷ xs
    → (s' : Stack) × (pop (some s) (some value) ≡ (true, some x, some s'))
      × (contents s' ≡ xs)
      × IsValid s'
      × (s'.buffer_size ≡ s.buffer_size)
unfolding Lifo.pop
pop-cons s value x xs v h =
    let (s', e, c, v', n) = pop_refines s value v in (s', simp h at e, simp h at c, v', n)

pub pop-nil :
    (s : Stack) (value : ℕ)
    → IsValid s
    → contents s ≡ []
    → (s' : Stack) × (pop (some s) (some value) ≡ (false, some value, some s'))
      × (contents s' ≡ [])
      × IsValid s'
      × (s'.buffer_size ≡ s.buffer_size)
unfolding Lifo.pop
pop-nil s value v h =
    let (s', e, c, v', n) = pop_refines s value v in (s', simp h at e, simp h at c, v', n)

-- A handle with room takes a byte.
pub push-room :
    (s : Stack) (x : ℕ)
    → IsValid s
    → length (contents s) < s.buffer_size
    → (s' : Stack) × (push (some s) x ≡ (true, some s'))
      × (contents s' ≡ x ∷ contents s)
      × IsValid s'
      × (s'.buffer_size ≡ s.buffer_size)
unfolding Lifo.push
push-room s x v h =
    let (s', e, c, v', n) = push_refines s x v in
    let room = lt→ltb (length (contents s)) s.buffer_size h in
    (s', simp room at e, simp room at c, v', n)

-- A client's calls on a handle, each pop into a fresh byte, with what each returns.
pub session : Option Stack → List Op → List Reply
session h [] = []
session h (push_op x ∷ ops) = let (done, h') = push h x in (done, none) ∷ session h' ops
session h (pop_op ∷ ops) =
    let (done, out, h') = pop h (some 0) in (done, if done then out else none) ∷ session h' ops

Lifo-pop_reply :
    (xs : List ℕ)
    → (if (Lifo.pop xs).0 then some (get_or_value 0 (Lifo.pop xs).1) else none) ≡ (Lifo.pop xs).1
unfolding Lifo.pop
Lifo-pop_reply [] = refl
Lifo-pop_reply (x ∷ xs) = refl

-- On a stack handle whose pointer lies within its buffer, every sequence of pushes and pops gives
-- the answers that a bounded stack of its bytes gives.
pub session_refines :
    (ops : List Op) (s : Stack)
    → IsValid s
    → session (some s) ops ≡ Lifo.run s.buffer_size (contents s) ops
unfolding session Lifo.run
session_refines [] s v = refl
session_refines (push_op x ∷ ops) s v =
    let (s', e, c, v', n) = push_refines s x v in
    rw e (
      ap (λ t. ((Lifo.push s.buffer_size (contents s) x).0, none) ∷ t)
        (session_refines ops s' v' ∙ ap₂ (λ k l. Lifo.run k l ops) n c))
session_refines (pop_op ∷ ops) s v =
    let (s', e, c, v', n) = pop_refines s 0 v in
    rw e (
      ap₂ (λ r t. ((Lifo.pop (contents s)).0, r) ∷ t) (Lifo-pop_reply (contents s))
        (session_refines ops s' v' ∙ ap₂ (λ k l. Lifo.run k l ops) n c))
