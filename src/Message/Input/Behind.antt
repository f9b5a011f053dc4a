-- ===== src/Message/Input/Behind.antt =====
-- message_read_from_blob of cubelib/message/message.c.
use cube.Prelude.{ℕ, ◌+◌, ◌-◌, Bool, Option, none, some, List, ℤ, pos, negsuc, drop}
use cube.Message.{MessageHead, MessageBox, sizeof_msg_head}
use cube.Message.Input.{InputMemory, message_read_head, message_read_data}

module _ {S : Type 0} where
  -- `retval+offset`, or the error of `message_read_data`.
  unfoldable pub with_offset : Option (ℤ × MessageBox S) → Option (ℤ × Option (MessageBox S))
  with_offset none = none
  with_offset (some (negsuc status, m)) = some (negsuc status, some m)
  with_offset (some (pos n, m)) = some (pos (sizeof_msg_head + n), some m)

  -- The data behind a head that was read.
  unfoldable pub read_behind :
      InputMemory → List ℕ → ℕ → ℤ × Option (MessageBox S) → Option (ℤ × Option (MessageBox S))
  unfolding message_read_data with_offset
  read_behind memory blob data_size (status, none) = some (status, none)
  read_behind memory blob data_size (status, some m) = with_offset (
      message_read_data memory m (some (drop sizeof_msg_head blob))
        (pos (data_size - sizeof_msg_head)))

  -- `message_read_from_blob` of `data_size` bytes, with what was parsed of them.
  unfoldable pub message_read_from_blob :
      Bool → Bool → InputMemory → ℤ × MessageHead → List ℕ → ℕ → Option (ℤ × Option (MessageBox S))
  unfolding message_read_head read_behind
  message_read_from_blob for_box for_data memory parsed blob data_size =
      read_behind memory blob data_size (message_read_head for_box for_data parsed data_size)
