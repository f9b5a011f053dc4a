-- ===== src/PointerQueue/Refine.antt =====
-- The pointer queue behaves as a bounded queue of `size` pointers.
use cube.Prelude.{
  ℕ, ◌<◌, ◌≡◌, some-injective, subst, refl, some, List, [], ◌∷◌, true, length-replicate,
}
use cube.Fifo
use cube.Fifo.{Op, put, get}
use cube.PointerQueue.{PointerQueue, init_pointer_queue, serve, replies}
use cube.PointerQueue.Contents.{IsValid, contents}
use cube.PointerQueue.Put.{pointer_queue_put_refines}
use cube.PointerQueue.Get.{pointer_queue_get_refines}

-- No sequence of puts and gets tells a valid queue from the bounded queue of its contents.
pub replies_refine :
    (ops : List Op) {q : PointerQueue}
    → IsValid q
    → replies q ops ≡ Fifo.replies q.size (contents q) ops
unfolding replies serve Fifo.replies Fifo.serve
replies_refine [] v = refl
replies_refine (put x ∷ ops) {q} v =
    let (v', size, e) = pointer_queue_put_refines q x v in rw (replies_refine ops v', ← e, size)
replies_refine (get ∷ ops) {q} v =
    let (v', size, e) = pointer_queue_get_refines q v in rw (replies_refine ops v', ← e, size)

-- A queue that `init_pointer_queue` returns for a positive size gives, on every sequence of calls,
-- what an empty queue with room for `size` pointers gives.
pub init-replies :
    (size : ℕ) {q : PointerQueue} (ops : List Op)
    → 0 < size
    → init_pointer_queue size true ≡ some q
    → replies q ops ≡ Fifo.replies size [] ops
unfolding init_pointer_queue
init-replies size ops h e =
    subst (λ p. replies p ops ≡ Fifo.replies size [] ops) (some-injective _ _ e)
      (replies_refine ops (record { room = length-replicate size 0; some_room = h; sites = refl }))
