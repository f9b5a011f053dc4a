-- ===== src/PointerQueue/Tests.antt =====
-- A queue of three pointers that goes round its end, and the theorems at it.
use cube.Prelude.{◌≡◌, refl, none, some, List, [], ◌∷◌, pos, einval, enospc, arith}
use cube.Fifo
use cube.Fifo.{Op, put, get}
use cube.PointerQueue.{PointerQueue, pointer_queue_put, pointer_queue_get, serve, replies}
use cube.PointerQueue.Contents.{IsValid, contents}
use cube.PointerQueue.Refine.{replies_refine}

-- 70 at the end, then 80.
abbrev wrapped : PointerQueue
wrapped = record { buffer = 80 ∷ 0 ∷ 70 ∷ []; size = 3; head = some 0; tail = 2 }

wrapped-IsValid : IsValid wrapped
wrapped-IsValid = omega arith

abbrev script : List Op
script = put 90 ∷ put 91 ∷ get ∷ get ∷ get ∷ get ∷ put 92 ∷ []

replies-wrapped :
    replies wrapped script
    ≡ (pos 0, none)
      ∷ (enospc, none)
      ∷ (pos 0, some 70)
      ∷ (pos 0, some 80)
      ∷ (pos 0, some 90)
      ∷ (einval, none)
      ∷ (pos 0, none)
      ∷ []
unfolding replies serve pointer_queue_put pointer_queue_get
replies-wrapped = refl

replies_refine_example : replies wrapped script ≡ Fifo.replies 3 (contents wrapped) script
replies_refine_example = replies_refine script wrapped-IsValid

abbrev empty_queue : PointerQueue
empty_queue = record { buffer = 0 ∷ 0 ∷ []; size = 2; head = none; tail = 0 }
