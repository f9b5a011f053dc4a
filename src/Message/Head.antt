-- ===== src/Message/Head.antt =====
-- The fields of a message that the other parts read and set: the accessors of
-- cubelib/message/message.c. A message is never NULL. `uuid_to_digest` of cubelib/crypto/crypto_func.c
-- has the code of `_uuid_to_digest` of struct_ops.c.
pub mod Named
mod Tests
use cube.Prelude.{
  ℕ, ◌==◌, ◌+◌, ◌*◌, ltb, if◌then◌else◌, Option, none, some, List, ℤ, pos, einval, memset, memcpy,
  digest_size,
}
use cube.MessageQueue.{is_negative}
use cube.Strings.{strlen, strncpy}
use cube.Hex.{isstrinuuid}
use cube.ElemOps.{name_size, uuid_to_digest}
use cube.Message.{MessageHead, MessageBox, Blob, null, array, freed}

module _ {S : Type 0} (m : MessageBox S) where
  pub message_get_head : MessageHead
  message_get_head = m.head

  pub message_get_state : ℕ
  message_get_state = m.head.state

  pub message_set_state : ℕ → ℤ × MessageBox S
  message_set_state state = (pos 0, record m { head = record (m.head) { state = state } })

  pub message_get_flag : ℕ
  message_get_flag = m.head.flag

  pub message_set_flag : ℕ → ℤ × MessageBox S
  message_set_flag flag = (pos 0, record m { head = record (m.head) { flag = flag } })

  pub message_get_flow : ℕ
  message_get_flow = m.head.flow

  pub message_set_flow : ℕ → ℤ × MessageBox S
  message_set_flow flow = (pos 0, record m { head = record (m.head) { flow = flow } })

  pub message_get_type : ℕ
  message_get_type = m.head.record_type

  pub message_get_subtype : ℕ
  message_get_subtype = m.head.record_subtype

  pub message_get_policy : ℕ
  message_get_policy = m.policy

  pub message_set_policy : ℕ → ℤ × MessageBox S
  message_set_policy policy = (pos 0, record m { policy = policy })

  pub message_get_activemsg : ℕ
  message_get_activemsg = m.active_msg

  pub message_set_activemsg : ℕ → ℕ × MessageBox S
  message_set_activemsg active_msg = (active_msg, record m { active_msg = active_msg })

  -- `message_get_uuid` into an array.
  pub message_get_uuid : List ℕ → ℤ × List ℕ
  message_get_uuid uuid = (pos digest_size, memcpy uuid 0 m.head.nonce 0 digest_size)

  -- `message_get_blob`: what it returns, and the pointer it hands out.
  pub message_get_blob : ℕ × Option Blob
  message_get_blob = elim m.blob [
    | null ↦ (0, none)
    | array bytes ↦ (m.head.record_size, some (array bytes))
    | freed ↦ (m.head.record_size, some freed)
  ]

  pub message_set_blob : Blob → ℕ → ℕ × MessageBox S
  message_set_blob blob size =
      (size, record m { blob = blob; head = record (m.head) { record_size = size } })

  pub message_get_sender : List ℕ
  message_get_sender = m.head.sender_uuid

  pub message_get_receiver : List ℕ
  message_get_receiver = m.head.receiver_uuid

-- The end of `message_set_sender` and of `message_set_receiver` for 64 characters, with what
-- `uuid_to_digest` leaves.
unfoldable with_digest : ℤ × List ℕ → List ℕ → ℤ × List ℕ
with_digest (ret, field) text =
    if is_negative ret then (ret, field) else (pos 0, strncpy field text name_size)

-- What `message_set_sender` and `message_set_receiver` do to their field.
unfoldable pub set_field : List ℕ → List ℕ → ℤ × List ℕ
unfolding with_digest
set_field field text =
    let cleared = memset field 0 0 digest_size in
    if strlen text == digest_size * 2
    then with_digest (uuid_to_digest text cleared) text
    else if ltb name_size (strlen text)
    then (einval, cleared)
    else (pos 0, strncpy cleared text name_size)

-- What `message_set_sender_uuid` and `message_set_receiver_uuid` do to their field.
unfoldable pub set_field_uuid : List ℕ → List ℕ → List ℕ
set_field_uuid field uuid =
    let cleared = memset field 0 0 digest_size in
    if isstrinuuid uuid then strncpy cleared uuid name_size else memcpy cleared 0 uuid 0 digest_size

module _ {S : Type 0} (m : MessageBox S) where
  with_sender : ℤ × List ℕ → ℤ × MessageBox S
  with_sender (ret, field) = (ret, record m { head = record (m.head) { sender_uuid = field } })

  with_receiver : ℤ × List ℕ → ℤ × MessageBox S
  with_receiver (ret, field) = (ret, record m { head = record (m.head) { receiver_uuid = field } })

  pub message_set_sender : List ℕ → ℤ × MessageBox S
  unfolding set_field with_sender
  message_set_sender sender = with_sender (set_field m.head.sender_uuid sender)

  pub message_set_sender_uuid : List ℕ → ℤ × MessageBox S
  unfolding set_field_uuid with_sender
  message_set_sender_uuid uuid = with_sender (pos 0, set_field_uuid m.head.sender_uuid uuid)

  pub message_set_receiver : List ℕ → ℤ × MessageBox S
  unfolding set_field with_receiver
  message_set_receiver receiver = with_receiver (set_field m.head.receiver_uuid receiver)

  pub message_set_receiver_uuid : List ℕ → ℤ × MessageBox S
  unfolding set_field_uuid with_receiver
  message_set_receiver_uuid uuid = with_receiver (pos 0, set_field_uuid m.head.receiver_uuid uuid)
