-- ===== src/PointerStack.antt =====
-- The pointer stack of cubelib/basefunc/basefunc.c.
pub mod Laws
mod Tests
use cube.Prelude.{
  ℕ, zero, suc, ◌+◌, Bool, true, false, Option, none, some, List, ℤ, pos, negsuc, enospc, leb, ◌==◌,
  ◌&&◌, if◌then◌else◌, get_or, set, replicate,
}

-- `POINTER_STACK`: `curr` is counted from `top`, and `buffer` holds the `size` pointers there.
pub record PointerStack : Type 0 where
  pub buffer : List ℕ
  pub curr : ℤ
  pub size : ℕ

-- `init_pointer_stack`: `allocated` tells whether `Talloc` returned memory, whose bytes are `junk`.
pub init_pointer_stack : ℕ → List ℕ → Bool → Option PointerStack
init_pointer_stack size junk false = none
init_pointer_stack size junk true = some (record { buffer = junk; curr = pos 0; size = size })

-- `pointer_stack_push`: the status and the stack afterwards, or `none` where the code stores in
-- front of the array, over the fields of the stack itself.
pub pointer_stack_push : PointerStack → ℕ → Option (ℤ × PointerStack)
pointer_stack_push s pointer = elim s.curr [
  | pos c ↦
      if leb s.size (c + 1)
      then some (enospc, s)
      else some (pos 0, record s { buffer = set s.buffer c pointer; curr = pos (c + 1) })
  | negsuc n ↦ if (n == 0) && (s.size == 0) then some (enospc, s) else none
]

-- `pointer_stack_pop`: the pointer, 0 for NULL, and the stack afterwards. `curr` goes down on an
-- empty stack too.
pub pointer_stack_pop : PointerStack → ℕ × PointerStack
pointer_stack_pop s = elim s.curr [
  | pos c ↦ elim c [
    | zero ↦ (0, record s { curr = negsuc 0 })
    | suc c' ↦ (get_or s.buffer c' 0, record s { curr = pos c' })
  ]
  | negsuc n ↦ (0, record s { curr = negsuc (n + 1) })
]
