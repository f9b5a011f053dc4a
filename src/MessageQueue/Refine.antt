-- ===== src/MessageQueue/Refine.antt =====
-- A queue of messages against a stack.
use cube.Prelude.{
  ℕ, ◌+◌, ◌-◌, ◌≡◌, refl, ap, ◌∙◌, Bool, true, false, List, [], ◌∷◌, ◌++◌, ℤ, pos, negsuc, einval,
  ltb, ◌==◌, arith, if◌then◌else◌, length,
}
use cube.MessageQueue.{
  is_negative, MessageQueue, put_record, message_queue_putmsg, prev_record, without_prev,
  get_record, message_queue_getmsg, reset_loop, message_queue_reset,
}

-- The records of a stack with its top first, in the order of the list.
unfoldable pub bottom_up : List ℕ → List ℕ
bottom_up [] = []
bottom_up (m ∷ stack) = bottom_up stack ++ m ∷ []

-- An open queue that holds the messages of a stack.
pub record Stacked (q : MessageQueue) (stack : List ℕ) : Type 0 where
  pub order : q.records ≡ bottom_up stack
  pub counted : q.msg_num ≡ length stack
  pub is_open : is_negative q.state ≡ false

prev_record-snoc : (records : List ℕ) (m : ℕ) → prev_record (records ++ m ∷ []) ≡ m
unfolding prev_record
prev_record-snoc [] m = refl
prev_record-snoc (n ∷ []) m = refl
prev_record-snoc (n ∷ k ∷ records) m = prev_record-snoc (k ∷ records) m

without_prev-snoc : (records : List ℕ) (m : ℕ) → without_prev (records ++ m ∷ []) ≡ records
unfolding without_prev
without_prev-snoc [] m = refl
without_prev-snoc (n ∷ []) m = refl
without_prev-snoc (n ∷ k ∷ records) m = ap (◌∷◌ n) (without_prev-snoc (k ∷ records) m)

-- The calls of a client, with memory for each message, and what they give.
pub data Call : Type 0 where
  put : ℕ → Call
  get : Call

abbrev pub Reply : Type 0
Reply = ℤ × ℕ

unfoldable pub replies : List Call → MessageQueue → List Reply
replies [] q = []
replies (put m ∷ calls) q =
    let (status, q') = message_queue_putmsg true q m in (status, 0) ∷ replies calls q'
replies (get ∷ calls) q =
    let (status, m, q') = message_queue_getmsg q in (status, m) ∷ replies calls q'

unfoldable pub stack_replies : List Call → List ℕ → List Reply
stack_replies [] stack = []
stack_replies (put m ∷ calls) stack = (pos 0, 0) ∷ stack_replies calls (m ∷ stack)
stack_replies (get ∷ calls) [] = (pos 0, 0) ∷ stack_replies calls []
stack_replies (get ∷ calls) (m ∷ stack) = (pos 0, m) ∷ stack_replies calls stack

put-Stacked :
    (q : MessageQueue) (stack : List ℕ) (m : ℕ)
    → Stacked q stack
    → Stacked (record q { records = q.records ++ m ∷ []; msg_num = q.msg_num + 1 }) (m ∷ stack)
unfolding bottom_up
put-Stacked q stack m s = record {
  order = ap (λ l. l ++ m ∷ []) s.order;
  counted = omega (arith, s.counted);
  is_open = s.is_open;
}

get-Stacked :
    (q : MessageQueue) (stack : List ℕ) (m : ℕ)
    → Stacked q (m ∷ stack)
    → Stacked (record q { records = without_prev q.records; msg_num = q.msg_num - 1 }) stack
unfolding bottom_up
get-Stacked q stack m s = record {
  order = ap without_prev s.order ∙ without_prev-snoc (bottom_up stack) m;
  counted = omega (arith, s.counted);
  is_open = s.is_open;
}

put-opens :
    (q : MessageQueue) (m : ℕ)
    → is_negative q.state ≡ false
    → message_queue_putmsg true q m
      ≡ (pos 0, record q { records = q.records ++ m ∷ []; msg_num = q.msg_num + 1 })
unfolding message_queue_putmsg put_record
put-opens q m e = rw (message_queue_putmsg, e) refl

get-empty : (q : MessageQueue) → Stacked q [] → message_queue_getmsg q ≡ (pos 0, 0, q)
unfolding message_queue_getmsg get_record
get-empty q s =
    let none_left : (q.msg_num == 0) ≡ true = ground (arith, s.counted) in
    rw (message_queue_getmsg, s.is_open, get_record, none_left) refl

get-top :
    (q : MessageQueue) (stack : List ℕ) (m : ℕ)
    → Stacked q (m ∷ stack)
    → message_queue_getmsg q
      ≡ (pos 0, m, record q { records = without_prev q.records; msg_num = q.msg_num - 1 })
unfolding message_queue_getmsg get_record bottom_up
get-top q stack m s =
    let some_left : (q.msg_num == 0) ≡ false = ground (arith, s.counted) in
    let top : prev_record q.records ≡ m =
      ap prev_record s.order ∙ prev_record-snoc (bottom_up stack) m in
    rw (message_queue_getmsg, s.is_open, get_record, some_left, top) refl

-- Every sequence of puts and gets on an open queue, with memory for each message, gives what a stack
-- gives: a get takes the message that was put last.
pub replies-stack :
    (calls : List Call) (q : MessageQueue) (stack : List ℕ)
    → Stacked q stack
    → replies calls q ≡ stack_replies calls stack
unfolding replies stack_replies
replies-stack [] q stack s = refl
replies-stack (put m ∷ calls) q stack s =
    rw (put-opens q m s.is_open)
      (ap (◌∷◌ (pos 0, 0)) (replies-stack calls _ (m ∷ stack) (put-Stacked q stack m s)))
replies-stack (get ∷ calls) q [] s =
    rw (get-empty q s) (ap (◌∷◌ (pos 0, 0)) (replies-stack calls q [] s))
replies-stack (get ∷ calls) q (m ∷ stack) s =
    rw (get-top q stack m s)
      (ap (◌∷◌ (pos 0, m)) (replies-stack calls _ stack (get-Stacked q stack m s)))

reset_loop-closed : (q : MessageQueue) → is_negative q.state ≡ true → reset_loop q ≡ q
unfolding reset_loop message_queue_getmsg
reset_loop-closed q e = rw e (either_way (ltb 0 q.msg_num))
  where
    either_way : (b : Bool) → (if b then q else q) ≡ q
    either_way true = refl
    either_way false = refl

reset-open :
    (q : MessageQueue)
    → is_negative q.state ≡ false
    → message_queue_reset q ≡ (pos 0, record q { state = negsuc 0 })
unfolding message_queue_reset
reset-open q e =
    rw (message_queue_reset, e, reset_loop-closed (record q { state = negsuc 0 }) refl) refl

get-closed :
    (q : MessageQueue) → is_negative q.state ≡ true → message_queue_getmsg q ≡ (einval, 0, q)
unfolding message_queue_getmsg
get-closed q e = rw (message_queue_getmsg, e) refl

-- `message_queue_reset` of an open queue returns 0 and closes it, but takes no message out, and
-- after that no call takes one out.
message_queue_reset_keeps :
    (q : MessageQueue)
    → is_negative q.state ≡ false
    → (message_queue_reset q ≡ (pos 0, record q { state = negsuc 0 }))
      × (message_queue_getmsg (message_queue_reset q).1
          ≡ (einval, 0, record q { state = negsuc 0 }))
message_queue_reset_keeps q e = (
  reset-open q e,
  ap (λ (r : ℤ × MessageQueue). message_queue_getmsg r.1) (reset-open q e)
      ∙ get-closed (record q { state = negsuc 0 }) refl,
)
