-- ===== src/Message/Tests.antt =====
-- A small message with structs that are their own bytes, and the theorems at it.
use cube.Prelude.{
  ℕ, ◌≡◌, refl, true, false, ◌==◌, Option, none, some, List, [], ◌∷◌, ◌++◌, ℤ, pos, einval, length,
  memcpy, replicate, arith,
}
use cube.EnumFlag.{load, store}
use cube.Strings.{strncmp}
use cube.MessageQueue.{enomem}
use cube.Message.{
  joined, int_bytes, head_bytes, sizeof_msg_head, msg_box_add, msg_box_expand, msg_box_loaddata,
  MessageBox, MsgExpand, Site, null, array, StructOps,
}
use cube.Message.Sites.{init_head}
use cube.Message.Expands.{
  is_type, has_type, message_add_expand, message_get_define_expand, message_remove_expand,
}
use cube.Message.Expands.Added.{message_add_expand-get-remove}
use cube.Message.Output.{OutputMemory, check_status, join_expand, encode_record, encode_expand}
use cube.Message.Output.Blob.{message_output_blob}
use cube.Message.Output.Copied.{Each, Filled}
use cube.Message.Output.Loops.{RecordIs, ExpandIs, made}
use cube.Message.Output.Made.{Enough, IsMade, output_head, written}
use cube.Message.Output.Written.{message_output_blob-written}
use cube.Message.Output.Again.{message_output_blob-again}
use cube.Message.Input.{InputMemory, bad_head, message_read_data, cut_expands}
use cube.Message.Input.Behind.{message_read_from_blob}
use cube.Message.Input.Pieces.{Waits}
use cube.Message.Input.Chunks.{feed, message_of, message_read_data-feed}
use cube.Message.Input.Source.{source_loop, source_loop-long}
use cube.Message.Announced.{HasHeads}
use cube.Message.RoundTrip.{HasRoom, received, message_read_from_blob-output}
use cube.Message.Refused.{message_output_blob-refused}

abbrev plain_ops : StructOps (List ℕ)
plain_ops = record {
  has_template = λ t. t.0 == 1;
  struct_2_blob = λ t v. (pos (length v), v);
  blob_2_struct = λ t b. (pos (length b), b);
  struct_clone = λ t v. (pos 0, v);
  clone_struct = λ t v. some v;
  expand_head_2_blob = λ e. (pos 12, int_bytes 0 ++ (int_bytes e.type ++ int_bytes e.subtype));
}

abbrev trace : MsgExpand (List ℕ)
trace = record { data_size = 0; type = 1; subtype = 2; expand = 5 ∷ [] }

abbrev box : MessageBox (List ℕ)
box = record {
  head = record init_head { record_type = 1; record_subtype = 1; record_num = 1; expand_num = 1 };
  record_template = some (1, 1);
  box_state = msg_box_add;
  head_size = pos 0;
  records = record { bytes = none; struct = some (7 ∷ 8 ∷ 9 ∷ []); size = 0 } ∷ [];
  expands = record { bytes = none; struct = some trace; size = 0 } ∷ [];
  blob = null;
  current_offset = 0;
  policy = 0;
  active_msg = 0;
}

abbrev record_bytes : List (List ℕ)
record_bytes = (7 ∷ 8 ∷ 9 ∷ []) ∷ []

abbrev expand_bytes : List (List ℕ)
expand_bytes = (1 ∷ 0 ∷ 0 ∷ 0 ∷ 1 ∷ 0 ∷ 0 ∷ 0 ∷ 2 ∷ 0 ∷ 0 ∷ 0 ∷ 5 ∷ []) ∷ []

abbrev memory : OutputMemory
memory = record {
  buffer = true;
  record_buffer = true;
  expand_buffer = true;
  for_record = λ i. true;
  for_expand = λ i. true;
  out = true;
}

memory-Enough : Enough memory
memory-Enough = record {
  buffer = refl;
  record_buffer = refl;
  expand_buffer = refl;
  for_record = λ i. refl;
  for_expand = λ i. refl;
  out = refl;
}

box-IsMade : IsMade box
unfolding init_head
box-IsMade = record {
  no_blob = refl;
  has_template = refl;
  not_crypt = refl;
  record_num_is = refl;
  expand_num_is = refl;
  record_num_lt = omega arith;
  expand_num_lt = omega arith;
}

box_records : Each (RecordIs plain_ops box.record_template) box.records record_bytes
unfolding encode_record check_status
box_records = (made (7 ∷ 8 ∷ 9 ∷ []) refl refl refl, tt)

box_expands : Each (ExpandIs plain_ops) box.expands expand_bytes
unfolding encode_expand check_status join_expand store
box_expands = (made trace refl refl, tt)

message_output_blob-written_example :
    (record_sites : List (Site (List ℕ))) × (expand_sites : List (Site (MsgExpand (List ℕ)))) × Each
      Filled record_sites record_bytes
    × Each Filled expand_sites expand_bytes
    × (message_output_blob plain_ops memory box
        ≡ some (
          pos 196,
          some (head_bytes (output_head box 3 13) ++ (joined record_bytes ++ joined expand_bytes)),
          written box record_sites expand_sites 3 13,
        ))
message_output_blob-written_example =
    message_output_blob-written plain_ops memory memory-Enough box record_bytes expand_bytes
      box-IsMade box_records box_expands (omega arith)

message_output_blob-again_example :
    (status : ℤ) × (out : Option (List ℕ)) × (m' : MessageBox (List ℕ)) × (message_output_blob
        plain_ops memory box
      ≡ some (status, out, m'))
    × (message_output_blob plain_ops memory m' ≡ none)
message_output_blob-again_example =
    message_output_blob-again plain_ops memory memory-Enough box record_bytes expand_bytes
      box-IsMade box_records box_expands (omega arith)

abbrev input : InputMemory
input = record { for_records = true; for_expands = true; for_expand = λ i. true }

input-HasRoom : HasRoom input
input-HasRoom = record { for_records = refl; for_expands = refl; for_expand = λ i. refl }

plain_ops-HasHeads : HasHeads plain_ops
unfolding store
plain_ops-HasHeads e = refl

box_good : bad_head box.head ≡ false
unfolding bad_head init_head strncmp
box_good = refl

message_read_from_blob-output_example :
    (n : ℕ) × (out : List ℕ) × (m' : MessageBox (List ℕ)) × (message_output_blob plain_ops memory
        box
      ≡ some (pos n, some out, m'))
    × (message_read_from_blob {S = List ℕ} true true input (pos sizeof_msg_head, m'.head) out n
        ≡ some (
          pos n,
          some (received m'.head (joined record_bytes ++ joined expand_bytes) expand_bytes),
        ))
    × (m'.head ≡ output_head box 3 13)
message_read_from_blob-output_example =
    message_read_from_blob-output plain_ops memory memory-Enough input box record_bytes expand_bytes
      input-HasRoom plain_ops-HasHeads box-IsMade box_good box_records box_expands (omega arith)
      (omega arith)

abbrev waiting_box : ℕ → MessageBox (List ℕ)
waiting_box size = record box {
  head = record init_head { record_num = 1; record_size = size };
  box_state = msg_box_loaddata;
  records = [];
  expands = [];
  blob = array (replicate size 0);
}

message_read_data-feed_example :
    feed input (waiting_box 5) ((1 ∷ 2 ∷ []) ∷ (3 ∷ []) ∷ (4 ∷ 5 ∷ 6 ∷ []) ∷ [])
    ≡ message_of
        (message_read_data input (waiting_box 5) (some (1 ∷ 2 ∷ 3 ∷ 4 ∷ 5 ∷ 6 ∷ [])) (pos 6))
unfolding init_head
message_read_data-feed_example =
    message_read_data-feed input (waiting_box 5) (replicate 5 0) ((1 ∷ 2 ∷ []) ∷ (3 ∷ []) ∷ [])
      (4 ∷ 5 ∷ 6 ∷ []) (record { state = refl; data_is = refl; offset_is = refl }) (omega arith)
      (omega arith) (omega arith) (omega arith)

source_loop-long_example :
    (m' : MessageBox (List ℕ)) × (source_loop input
        ((pos 2, 1 ∷ 2 ∷ []) ∷ (pos 2, 3 ∷ 4 ∷ []) ∷ [])
        (waiting_box 5000)
        0
        5000
      ≡ some (0, m'))
    × Waits m' (memcpy (replicate 5000 0) 0 (1 ∷ 2 ∷ []) 0 2) 2
unfolding init_head
source_loop-long_example =
    source_loop-long input (waiting_box 5000) (replicate 5000 0) (1 ∷ 2 ∷ [])
      ((pos 2, 3 ∷ 4 ∷ []) ∷ []) (record { state = refl; data_is = refl; offset_is = refl })
      (omega arith) (omega arith) (omega arith)

abbrev point : MsgExpand (List ℕ)
point = record { data_size = 0; type = 1; subtype = 3; expand = 6 ∷ [] }

message_add_expand-get-remove_example :
    (m' : MessageBox (List ℕ)) × (message_add_expand plain_ops true true true box (some point)
      ≡ some (pos 0, m'))
    × (message_get_define_expand m' 1 3 ≡ some (pos 1, some point))
    × (message_remove_expand m' 1 3
        ≡ some (pos 0, some point, record box { box_state = msg_box_expand }))
unfolding init_head has_type is_type
message_add_expand-get-remove_example =
    message_add_expand-get-remove plain_ops box point 0 (6 ∷ []) refl refl refl (refl, tt)

abbrev unknown : MsgExpand (List ℕ)
unknown = record { data_size = 0; type = 4; subtype = 3; expand = 6 ∷ [] }

message_output_blob-refused_example :
    (m' m'' : MessageBox (List ℕ)) × (message_add_expand plain_ops true true true box (some unknown)
      ≡ some (enomem, m'))
    × (message_output_blob plain_ops memory m' ≡ some (einval, none, m''))
unfolding init_head
message_output_blob-refused_example =
    message_output_blob-refused plain_ops memory memory-Enough box unknown record_bytes expand_bytes
      refl box-IsMade (omega arith) box_records box_expands (omega arith)

-- An expand that announces more than the data has is read out of the data.
cut_expands-beyond : cut_expands {S = List ℕ} (λ i. true) 0 1 (9 ∷ 0 ∷ 0 ∷ 0 ∷ []) ≡ none
unfolding cut_expands load
cut_expands-beyond = refl
