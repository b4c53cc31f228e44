-- ===== src/Memory/ByteStack/Lifo.antt =====
-- What a bounded stack promises, and what a client of it sees.
use almost_os.Prelude.{
  ℕ, Bool, true, false, Option, none, some, List, [], ◌∷◌, length, ltb, if◌then◌else◌,
}

pub data Op : Type 0 where
  push_op : ℕ → Op
  pop_op : Op

-- What a call returns: whether it succeeded, and the byte it popped.
abbrev pub Reply : Type 0
Reply = Bool × Option ℕ

unfoldable pub push : ℕ → List ℕ → ℕ → Bool × List ℕ
push cap xs x = if ltb (length xs) cap then (true, x ∷ xs) else (false, xs)

unfoldable pub pop : List ℕ → Bool × Option ℕ × List ℕ
pop [] = (false, none, [])
pop (x ∷ xs) = (true, some x, xs)

-- A session of calls on a bounded stack of bytes, top first.
unfoldable pub run : ℕ → List ℕ → List Op → List Reply
run cap xs [] = []
run cap xs (push_op x ∷ ops) = let (done, ys) = push cap xs x in (done, none) ∷ run cap ys ops
run cap xs (pop_op ∷ ops) = let (done, out, ys) = pop xs in (done, out) ∷ run cap ys ops
