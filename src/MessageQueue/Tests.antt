-- ===== src/MessageQueue/Tests.antt =====
-- A queue with messages, and the theorems at it.
use cube.Prelude.{◌≡◌, refl, [], ◌∷◌, pos}
use cube.MessageQueue.{MessageQueue, message_queue_putmsg, message_queue_getmsg}
use cube.MessageQueue.Refine.{Stacked, put, get, replies, stack_replies, bottom_up, replies-stack}

abbrev empty_queue : MessageQueue
empty_queue = record { records = []; state = pos 0; msg_num = 0 }

abbrev two_messages : MessageQueue
two_messages = record { records = 40 ∷ 50 ∷ []; state = pos 0; msg_num = 2 }

two_messages-Stacked : Stacked two_messages (50 ∷ 40 ∷ [])
unfolding bottom_up
two_messages-Stacked = record { order = refl; counted = refl; is_open = refl }

newest-first :
    replies (put 40 ∷ put 50 ∷ get ∷ get ∷ get ∷ []) empty_queue
    ≡ (pos 0, 0) ∷ (pos 0, 0) ∷ (pos 0, 50) ∷ (pos 0, 40) ∷ (pos 0, 0) ∷ []
unfolding replies message_queue_putmsg message_queue_getmsg
newest-first = refl

replies-stack_example :
    replies (put 60 ∷ get ∷ get ∷ []) two_messages
    ≡ stack_replies (put 60 ∷ get ∷ get ∷ []) (50 ∷ 40 ∷ [])
replies-stack_example =
    replies-stack (put 60 ∷ get ∷ get ∷ []) two_messages (50 ∷ 40 ∷ []) two_messages-Stacked
