-- ===== src/ListQueue/Tests.antt =====
-- A queue of two records in the slots 2 and 3, and the theorems at it.
use cube.Prelude.{ℕ, ◌+◌, ◌≡◌, refl, List, [], ◌∷◌, some, pos, arith}
use cube.ListHead.{Store, insert_between, init_list_head, list_add_tail}
use cube.ListHead.Insert.{init_list_head-Ring, list_add_tail-Ring}
use cube.ListQueue.{ListQueue, list_queue_put, list_queue_get}
use cube.ListQueue.Slots.{HasSlots, records, list_queue_put-HasSlots}

abbrev blank : Store
blank = record { next = λ _. 0; prev = λ _. 0 }

abbrev lone : Store
lone = init_list_head 1 blank

abbrev slots : List ℕ
slots = 2 ∷ 3 ∷ []

abbrev pair : ListQueue
pair = record {
  queue_list = 1;
  record_num = 2;
  curr = 2;
  store = list_add_tail 3 1 (list_add_tail 2 1 lone);
  record_of = λ slot. slot + 100;
}

pair-HasSlots : HasSlots pair slots
pair-HasSlots = record {
  ring =
      list_add_tail-Ring (list_add_tail 2 1 lone) 3 1 (2 ∷ [])
        (list_add_tail-Ring lone 2 1 [] (init_list_head-Ring 1 blank) (omega arith)) (omega arith);
  counted = refl;
  nonnull = omega arith;
}

get-pair : (list_queue_get pair).1 ≡ 102
unfolding list_queue_get list_add_tail init_list_head insert_between
get-pair = refl

list_queue_put-HasSlots_example :
    let (n, q') = list_queue_put pair (some 4) 7 in
    (n ≡ pos 3) × HasSlots q' (2 ∷ 3 ∷ 4 ∷ []) × (records q' (2 ∷ 3 ∷ 4 ∷ []) ≡ 102 ∷ 103 ∷ 7 ∷ [])
list_queue_put-HasSlots_example =
    list_queue_put-HasSlots pair slots 4 7 pair-HasSlots (omega arith) (omega arith)
