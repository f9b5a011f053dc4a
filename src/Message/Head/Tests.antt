-- ===== src/Message/Head/Tests.antt =====
-- A message for a uuid of 32 equal bytes.
use cube.Prelude.{
  ℕ, zero, suc, ◌≡◌, refl, none, List, [], ◌++◌, pos, length-replicate, take, drop, replicate, All,
  IsByte, arith,
}
use cube.Strings.{strnlen}
use cube.Hex.{isstrinuuid}
use cube.ElemOps.{name_size}
use cube.Message.{msg_box_init, MessageBox, null}
use cube.Message.Sites.{init_head}
use cube.Message.Head.{message_set_receiver, message_set_receiver_uuid}
use cube.Message.Head.Named.{digits, received_by, message_set_receiver-digits}

abbrev some_uuid : List ℕ
some_uuid = replicate 32 200

some_uuid-IsByte : (n : ℕ) → All IsByte (replicate n 200)
some_uuid-IsByte zero = tt
some_uuid-IsByte (suc n) = (omega arith, some_uuid-IsByte n)

abbrev empty : MessageBox ℕ
empty = record {
  head = record init_head { receiver_uuid = replicate 32 0 };
  record_template = none;
  box_state = msg_box_init;
  head_size = pos 0;
  records = [];
  expands = [];
  blob = null;
  current_offset = 0;
  policy = 0;
  active_msg = 0;
}

message_set_receiver-digits_example :
    (message_set_receiver empty (digits some_uuid)
      ≡ (pos 0, received_by empty (take name_size (digits some_uuid) ++ drop name_size some_uuid)))
    × (message_set_receiver_uuid empty some_uuid ≡ (pos 0, received_by empty some_uuid))
unfolding isstrinuuid strnlen
message_set_receiver-digits_example =
    message_set_receiver-digits empty some_uuid (length-replicate {A = ℕ} 32 0)
      (length-replicate {A = ℕ} 32 200) (some_uuid-IsByte 32) refl
