-- ===== src/Message/Output/Again.antt =====
-- A message that message_output_blob of cubelib/message/message.c put out before.
use cube.Prelude.{
  ℕ, ◌+◌, ◌^◌, ◌≤◌, ◌<◌, ◌≡◌, refl, ap, ap₂, ◌∙◌, Bool, true, false, not, ◌==◌, ◌&&◌, ◌||◌, leb,
  if◌then◌else◌, Option, none, some, List, ℤ, einval, length, replicate, bit_and, arith,
}
use cube.MessageQueue.{enomem}
use cube.Message.{joined, sizeof_msg_head, MessageBox, freed, StructOps, msg_flag_crypt}
use cube.Message.Output.{OutputMemory, bufsize}
use cube.Message.Output.Blob.{
  is_null, is_missing, copy_records, append_expands, message_output_blob,
}
use cube.Message.Output.Copied.{Each}
use cube.Message.Output.Loops.{RecordIs, ExpandIs}
use cube.Message.Output.Made.{Enough, IsMade, output_head, written}
use cube.Message.Output.Written.{message_output_blob-written}

module _ {S : Type 0} (ops : StructOps S) (memory : OutputMemory) (enough : Enough memory) where
  -- The output of a message whose blob was freed reads the freed array.
  output_blob-freed :
      (m : MessageBox S)
      → m.blob ≡ freed
      → m.head.record_num < 2 ^ 31
      → m.head.expand_num < 2 ^ 31
      → message_output_blob ops memory m ≡ none
  unfolding message_output_blob
  output_blob-freed m e r x =
      let buffer : List ℕ = replicate bufsize 0 in
      let number : leb (2 ^ 31) m.head.record_num ≡ false = ground arith in
      let few : leb (2 ^ 31) m.head.expand_num ≡ false = ground arith in
      ap₂
        (λ b c.
          if not b
          then some (enomem, none, m)
          else if c
          then some (einval, none, m)
          else append_expands ops memory (copy_records ops memory m buffer sizeof_msg_head m.blob))
        enough.buffer
        (ap₂
            (λ b c.
              ((not (bit_and m.head.flag msg_flag_crypt == 0) && is_null b)
                || (is_missing m.record_template && is_null b)
                || c)
              || leb (2 ^ 31) m.head.expand_num)
            e number
          ∙ tests (bit_and m.head.flag msg_flag_crypt == 0) (is_missing m.record_template)
              (leb (2 ^ 31) m.head.expand_num) few)
      ∙ ap (λ b. append_expands ops memory (copy_records ops memory m buffer sizeof_msg_head b)) e
    where
      tests :
          (crypt missing few : Bool)
          → few ≡ false
          → (((not crypt && false) || (missing && false) || false) || few) ≡ false
      tests true true few p = p
      tests true false few p = p
      tests false true few p = p
      tests false false few p = p

  -- A message that was made here and is put out once, with memory for all and at most 4096 bytes,
  -- cannot be put out again: the second message_output_blob reads the array that the first one
  -- freed.
  pub message_output_blob-again :
      (m : MessageBox S) (records expands : List (List ℕ))
      → IsMade m
      → Each (RecordIs ops m.record_template) m.records records
      → Each (ExpandIs ops) m.expands expands
      → sizeof_msg_head + length (joined records) + length (joined expands) ≤ bufsize
      → (status : ℤ) × (out : Option (List ℕ)) × (m' : MessageBox S) × (message_output_blob ops
            memory m
          ≡ some (status, out, m'))
        × (message_output_blob ops memory m' ≡ none)
  unfolding written output_head
  message_output_blob-again m records expands made rs es h =
      let (record_sites, expand_sites, each_record, each_expand, ran) =
        message_output_blob-written ops memory enough m records expands made rs es h in
      let m' : MessageBox S =
        written m record_sites expand_sites (length (joined records)) (length (joined expands)) in
      (_, _, m', ran, output_blob-freed m' refl made.record_num_lt made.expand_num_lt)
