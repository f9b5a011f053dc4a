-- ===== src/PointerQueue.antt =====
-- The pointer queue of cubelib/basefunc/basefunc.c: a ring of `void *` in one memory block.
pub mod Contents
pub mod Put
pub mod Get
pub mod Refine
mod Tests
use cube.Prelude.{
  ℕ, ◌+◌, Bool, true, false, Option, none, some, List, [], ◌∷◌, ℤ, pos, einval, enospc, ◌==◌,
  if◌then◌else◌, get_or, set, replicate,
}
use cube.Fifo.{Op, put, get, Reply}

-- `POINTER_QUEUE`. A pointer is a number; `head` is `none` where the source has -1.
pub record PointerQueue : Type 0 where
  pub buffer : List ℕ
  pub size : ℕ
  pub head : Option ℕ
  pub tail : ℕ

-- `init_pointer_queue`: `allocated` tells whether `Talloc` returned memory.
pub init_pointer_queue : ℕ → Bool → Option PointerQueue
init_pointer_queue size false = none
init_pointer_queue size true =
    some (record { buffer = replicate size 0; size = size; head = none; tail = 0 })

stored : PointerQueue → ℕ → ℕ → ℤ × PointerQueue
stored q site pointer = (pos 0, record q { head = some site; buffer = set q.buffer site pointer })

-- `pointer_queue_put`: the status and the queue afterwards.
pub pointer_queue_put : PointerQueue → ℕ → ℤ × PointerQueue
unfolding stored
pointer_queue_put q pointer = elim q.head [
  | none ↦ stored q 0 pointer
  | some h ↦
      if h + 1 == q.size
      then (if q.tail == 0 then (enospc, q) else stored q 0 pointer)
      else (if h + 1 == q.tail then (enospc, q) else stored q (h + 1) pointer)
]

-- `pointer_queue_get`: the status, what is stored through `pointer` and the queue afterwards.
pub pointer_queue_get : PointerQueue → ℤ × Option ℕ × PointerQueue
pointer_queue_get q = elim q.head [
  | none ↦ (einval, none, q)
  | some h ↦
      if q.tail == h
      then (pos 0, some (get_or q.buffer q.tail 0), record q { head = none; tail = 0 })
      else if q.tail + 1 == q.size
      then (pos 0, some (get_or q.buffer q.tail 0), record q { tail = 0 })
      else (pos 0, some (get_or q.buffer q.tail 0), record q { tail = q.tail + 1 })
]

-- One call: what the client sees, and the queue afterwards.
pub serve : PointerQueue → Op → Reply × PointerQueue
serve q (put x) = let (s, q') = pointer_queue_put q x in ((s, none), q')
serve q get = let (s, out, q') = pointer_queue_get q in ((s, out), q')

-- What the client sees of its calls, in order.
pub replies : PointerQueue → List Op → List Reply
replies q [] = []
replies q (op ∷ ops) = let (reply, q') = serve q op in reply ∷ replies q' ops
