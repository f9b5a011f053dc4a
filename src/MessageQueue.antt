-- ===== src/MessageQueue.antt =====
-- The queue of messages of cubelib/ex_module/sec_msgqueue.c. Each call between its lock and its
-- unlock is one step.
pub mod Refine
mod Tests
use cube.Prelude.{
  ℕ, zero, suc, ◌+◌, ◌-◌, Bool, true, false, Option, none, some, List, [], ◌∷◌, ◌++◌, ℤ, pos,
  negsuc, einval, ltb, ◌==◌, if◌then◌else◌,
}

-- `-ENOMEM` of errno.h.
abbrev pub enomem : ℤ
enomem = negsuc 11

abbrev pub is_negative : ℤ → Bool
is_negative (pos n) = false
is_negative (negsuc n) = true

-- `MESSAGE_QUEUE`, with the records of its list in their order. A message is a pointer, 0 is NULL.
pub record MessageQueue : Type 0 where
  pub records : List ℕ
  pub state : ℤ
  pub msg_num : ℕ

-- `message_queue_init`, with whether there was memory and the status of `pthread_rwlock_init`: the
-- status and the queue that is stored.
pub message_queue_init : Bool → ℤ → ℤ × Option MessageQueue
message_queue_init false lock = (enomem, none)
message_queue_init true lock =
    if is_negative lock
    then (einval, none)
    else (pos 0, some (record { records = []; state = pos 0; msg_num = 0 }))

-- `__message_queue_putmsg`, with whether there was memory.
unfoldable pub put_record : Bool → MessageQueue → ℕ → ℤ × MessageQueue
put_record false q msg = (enomem, q)
put_record true q msg =
    (pos 0, record q { records = q.records ++ msg ∷ []; msg_num = q.msg_num + 1 })

-- `message_queue_putmsg`.
unfoldable pub message_queue_putmsg : Bool → MessageQueue → ℕ → ℤ × MessageQueue
unfolding put_record
message_queue_putmsg memory q msg =
    if is_negative q.state then (einval, q) else put_record memory q msg

-- The record in front of the head of the list, and the list without it. The head has the record
-- NULL.
unfoldable pub prev_record : List ℕ → ℕ
prev_record [] = 0
prev_record (m ∷ []) = m
prev_record (m ∷ n ∷ records) = prev_record (n ∷ records)

unfoldable pub without_prev : List ℕ → List ℕ
without_prev [] = []
without_prev (m ∷ []) = []
without_prev (m ∷ n ∷ records) = m ∷ without_prev (n ∷ records)

-- `__message_queue_getmsg`: the status, `*msg` and the queue.
unfoldable pub get_record : MessageQueue → ℤ × ℕ × MessageQueue
unfolding prev_record without_prev
get_record q = if q.msg_num == 0 then (pos 0, 0, q) else (
  pos 0,
  prev_record q.records,
  record q { records = without_prev q.records; msg_num = q.msg_num - 1 },
)

-- `message_queue_getmsg`. On a queue that is closed `*msg` is as it was, which is NULL here.
unfoldable pub message_queue_getmsg : MessageQueue → ℤ × ℕ × MessageQueue
unfolding get_record
message_queue_getmsg q = if is_negative q.state then (einval, 0, q) else get_record q

-- The loop of `message_queue_reset`. `message_queue_getmsg` returns no positive status, so that the
-- first round is the last one.
unfoldable pub reset_loop : MessageQueue → MessageQueue
unfolding message_queue_getmsg
reset_loop q = if ltb 0 q.msg_num then (message_queue_getmsg q).2 else q

-- `message_queue_reset`.
unfoldable pub message_queue_reset : MessageQueue → ℤ × MessageQueue
unfolding reset_loop
message_queue_reset q =
    if is_negative q.state then (einval, q) else (pos 0, reset_loop (record q { state = negsuc 0 }))
