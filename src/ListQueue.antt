-- ===== src/ListQueue.antt =====
-- The list queue of cubelib/basefunc/basefunc.c: records on a list of slots.
pub mod Slots
mod Tests
use cube.Prelude.{ℕ, ◌+◌, ◌-◌, Option, none, some, ℤ, pos, einval, ◌==◌, if◌then◌else◌}
use cube.ListHead.{Store, update, init_list_head, list_add_tail, list_del}

-- `LIST_QUEUE` with the store of its slots: a slot is a `Record_List`, known by its address, and
-- `record` is its `record` field. The address 0 is NULL.
pub record ListQueue : Type 0 where
  pub queue_list : ℕ
  pub record_num : ℕ
  pub curr : ℕ
  pub store : Store
  pub record_of : ℕ → ℕ

-- `init_list_queue`, on memory at `head` that `Calloc0` returned.
pub init_list_queue : ℕ → Store → (ℕ → ℕ) → ListQueue
init_list_queue head store record_of = record {
  queue_list = head;
  record_num = 0;
  curr = 0;
  store = init_list_head head store;
  record_of = record_of;
}

-- `list_queue_put`: `slot` is what `Calloc0` returned.
pub list_queue_put : ListQueue → Option ℕ → ℕ → ℤ × ListQueue
list_queue_put q none rec = (einval, q)
list_queue_put q (some slot) rec = (
  pos (q.record_num + 1),
  record q {
    record_num = q.record_num + 1;
    store = list_add_tail slot q.queue_list (init_list_head slot q.store);
    record_of = update q.record_of slot rec;
  },
)

-- `list_queue_get`: the count that is left, the record and the queue afterwards.
pub list_queue_get : ListQueue → ℕ × ℕ × ListQueue
list_queue_get q =
    let slot = q.store.next q.queue_list in
    if q.record_num == 0 then (0, 0, q) else (
      q.record_num - 1,
      q.record_of slot,
      record q { record_num = q.record_num - 1; store = list_del slot q.store },
    )

-- `list_queue_getfirst`.
pub list_queue_getfirst : ListQueue → ℕ × ListQueue
list_queue_getfirst q =
    let slot = q.store.next q.queue_list in
    if q.record_num == 0 then (0, q) else (q.record_of slot, record q { curr = slot })

-- `list_queue_getnext`.
pub list_queue_getnext : ListQueue → ℕ × ListQueue
list_queue_getnext q =
    let slot = q.store.next q.curr in
    if q.record_num == 0
    then (0, q)
    else if q.curr == 0
    then (0, q)
    else if slot == q.queue_list
    then (0, record q { curr = 0 })
    else (q.record_of slot, record q { curr = slot })

-- `list_queue_removecurr`. The NULL that the code stores into `curr` behind the last slot is
-- overwritten by the next statement. The slot is freed and stays linked.
pub list_queue_removecurr : ListQueue → ℕ × ListQueue
list_queue_removecurr q =
    if q.record_num == 0
    then (0, q)
    else if q.curr == 0
    then (0, q)
    else (q.record_of q.curr, record q { curr = q.store.next q.curr })
