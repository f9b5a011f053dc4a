-- ===== src/Message/Output/Blob.antt =====
-- message_output_blob and message_output_record_blob of cubelib/message/message.c.
use cube.Prelude.{
  ℕ, ◌+◌, ◌^◌, Bool, true, false, not, ◌==◌, ◌&&◌, ◌||◌, leb, if◌then◌else◌, Option, none, some,
  List, ℤ, pos, negsuc, einval, memcpy, slice, replicate, bit_and,
}
use cube.MessageQueue.{enomem}
use cube.Message.{
  MessageBox, Blob, null, array, freed, StructOps, head_bytes, msg_flag_crypt, sizeof_msg_head,
}
use cube.Message.Output.{
  bufsize, OutputMemory, copy_to, copy_sites, message_record_struct2blob,
  message_expand_struct2blob,
}

abbrev pub is_null : Blob → Bool
is_null null = true
is_null (array b) = false
is_null freed = false

abbrev pub is_missing : Option (ℕ × ℕ) → Bool
is_missing none = true
is_missing (some template) = false

-- The tests of the flag, of the template and of a number before the output.
unfoldable pub refuses : {S : Type 0} → MessageBox S → ℕ → Bool
refuses m number =
    (not (bit_and m.head.flag msg_flag_crypt == 0) && is_null m.blob)
    || (is_missing m.record_template && is_null m.blob)
    || leb (2 ^ 31) number

-- What the records leave: the status, the message, the buffer and the offset.
abbrev pub Copied : Type 0 → Type 0
Copied S = ℤ × MessageBox S × List ℕ × ℕ

-- What `message_output_blob` returns, with `*blob` and the message.
abbrev pub Output : Type 0 → Type 0
Output S = Option (ℤ × Option (List ℕ) × MessageBox S)

module _ {S : Type 0} where
  unfoldable pub placed : MessageBox S → Option (List ℕ × ℕ) → Option (Copied S)
  placed m none = none
  placed m (some (buffer, offset)) = some (pos 0, m, buffer, offset)

  -- The copy of the records behind `offset`, of what `message_record_struct2blob` left.
  unfoldable pub copy_filled : List ℕ → ℕ → Option (ℤ × MessageBox S) → Option (Copied S)
  unfolding copy_sites placed
  copy_filled buffer offset none = none
  copy_filled buffer offset (some (negsuc status, m)) = some (negsuc status, m, buffer, offset)
  copy_filled buffer offset (some (pos total, m)) =
      placed m (copy_sites m.head.record_num m.records buffer offset)

  -- The copy of the whole buffer, which is freed behind it.
  unfoldable pub handed_out : MessageBox S → ℕ → Option (List ℕ) → Output S
  handed_out m size none = none
  handed_out m size (some out) = some (pos size, some out, record m { blob = freed })

  -- The end of `message_output_blob`: the head at the start of the buffer, and the copy of it all.
  unfoldable pub finish_blob : Bool → MessageBox S → List ℕ → Output S
  unfolding copy_to handed_out
  finish_blob memory m buffer =
      let whole : List ℕ = memcpy buffer 0 (head_bytes m.head) 0 sizeof_msg_head in
      let blob_size : ℕ = sizeof_msg_head + m.head.record_size + m.head.expand_size in
      if memory
      then handed_out m blob_size (copy_to (replicate blob_size 0) 0 whole blob_size)
      else some (enomem, none, record m { blob = array whole })

  unfoldable pub finish_placed : Bool → MessageBox S → Option (List ℕ × ℕ) → Output S
  unfolding finish_blob
  finish_placed memory m none = none
  finish_placed memory m (some (buffer, offset)) = finish_blob memory m buffer

  -- The copy of the expands, of what `message_expand_struct2blob` left.
  unfoldable pub finish_filled : Bool → List ℕ → ℕ → Option (ℤ × MessageBox S) → Output S
  unfolding copy_sites finish_placed
  finish_filled memory buffer offset none = none
  finish_filled memory buffer offset (some (negsuc status, m)) = some (negsuc status, none, m)
  finish_filled memory buffer offset (some (pos total, m)) =
      finish_placed memory m (copy_sites m.head.expand_num m.expands buffer offset)

  -- The end of `message_output_record_blob`.
  unfoldable pub finish_record_blob : Bool → Option (Copied S) → Output S
  finish_record_blob memory none = none
  finish_record_blob memory (some (negsuc status, m, buffer, offset)) =
      some (negsuc status, none, m)
  finish_record_blob memory (some (pos copied, m, buffer, offset)) =
      some (if memory then (pos offset, some (slice buffer 0 offset), m) else (enomem, none, m))

module _ {S : Type 0} (ops : StructOps S) where
  -- The records behind `offset`, from `blob` where it is not NULL.
  unfoldable pub copy_records : OutputMemory → MessageBox S → List ℕ → ℕ → Blob → Option (Copied S)
  unfolding message_record_struct2blob copy_to copy_filled
  copy_records memory m buffer offset freed = none
  copy_records memory m buffer offset (array b) =
      elim (copy_to buffer offset b m.head.record_size) [
        | none ↦ none
        | some buffer' ↦ some (pos 0, m, buffer', offset + m.head.record_size)
      ]
  copy_records memory m buffer offset null =
      copy_filled buffer offset (message_record_struct2blob ops memory m)

  -- The expands, behind the records.
  unfoldable pub append_expands : OutputMemory → Option (Copied S) → Output S
  unfolding message_expand_struct2blob finish_filled
  append_expands memory none = none
  append_expands memory (some (negsuc status, m, buffer, offset)) = some (negsuc status, none, m)
  append_expands memory (some (pos copied, m, buffer, offset)) =
      finish_filled memory.out buffer offset (message_expand_struct2blob ops memory m)

  -- `message_output_blob`: the result, `*blob` and the message, whose `blob` is the buffer that the
  -- function freed.
  unfoldable pub message_output_blob : OutputMemory → MessageBox S → Output S
  unfolding refuses copy_records append_expands
  message_output_blob memory m =
      if not memory.buffer
      then some (enomem, none, m)
      else if refuses m m.head.record_num || leb (2 ^ 31) m.head.expand_num
      then some (einval, none, m)
      else append_expands memory
          (copy_records memory m (replicate bufsize 0) sizeof_msg_head m.blob)

  -- `message_output_record_blob`.
  unfoldable pub message_output_record_blob : OutputMemory → MessageBox S → Output S
  unfolding refuses copy_records finish_record_blob
  message_output_record_blob memory m =
      if not memory.buffer
      then some (enomem, none, m)
      else if refuses m m.head.record_num
      then some (einval, none, m)
      else finish_record_blob memory.out (copy_records memory m (replicate bufsize 0) 0 m.blob)
