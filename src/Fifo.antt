-- ===== src/Fifo.antt =====
-- What a bounded queue of pointers promises its clients, oldest first, and what they see of a call.
use cube.Prelude.{
  ℕ, Option, none, some, List, [], ◌∷◌, ◌++◌, ℤ, pos, einval, enospc, ltb, if◌then◌else◌, length,
}

pub data Op : Type 0 where
  put : ℕ → Op
  get : Op

-- The status, and the pointer that a `get` delivers.
abbrev pub Reply : Type 0
Reply = ℤ × Option ℕ

module _ (cap : ℕ) where
  unfoldable pub put_on : List ℕ → ℕ → ℤ × List ℕ
  put_on q x = if ltb (length q) cap then (pos 0, q ++ x ∷ []) else (enospc, q)

  unfoldable pub get_off : List ℕ → ℤ × Option ℕ × List ℕ
  get_off [] = (einval, none, [])
  get_off (x ∷ q) = (pos 0, some x, q)

  -- One call: what the client sees, and the queue afterwards.
  unfoldable pub serve : List ℕ → Op → Reply × List ℕ
  serve q (put x) = let (s, q') = put_on q x in ((s, none), q')
  serve q get = let (s, out, q') = get_off q in ((s, out), q')

  -- What the client sees of its calls, in order.
  unfoldable pub replies : List ℕ → List Op → List Reply
  replies q [] = []
  replies q (op ∷ ops) = let (reply, q') = serve q op in reply ∷ replies q' ops
