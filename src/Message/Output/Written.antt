-- ===== src/Message/Output/Written.antt =====
-- What message_output_blob of cubelib/message/message.c makes of a message whose bytes are known.
use cube.Prelude.{
  ℕ, ◌+◌, ◌^◌, ◌≤◌, ◌<◌, ◌≡◌, refl, ap, ap₂, ◌∙◌, Bool, true, false, not, ◌==◌, ◌&&◌, ◌||◌, leb,
  if◌then◌else◌, none, some, List, ◌++◌, pos, einval, length, length-replicate, replicate, bit_and,
  arith,
}
use cube.MessageQueue.{enomem}
use cube.Message.{
  joined, head_bytes, sizeof_msg_head, MessageBox, MsgExpand, Site, null, StructOps, msg_flag_crypt,
}
use cube.Message.Output.{OutputMemory, bufsize}
use cube.Message.Output.Blob.{
  is_null, is_missing, refuses, copy_records, append_expands, message_output_blob,
}
use cube.Message.Output.Copied.{Each, Filled}
use cube.Message.Output.Loops.{RecordIs, ExpandIs}
use cube.Message.Output.Made.{Enough, IsMade, output_head, written}
use cube.Message.Output.Parts.{copy_records_lem, append_expands_lem}

module _ {S : Type 0} where
  refuses_lem :
      (m : MessageBox S) (number : ℕ) → IsMade m → number < 2 ^ 31 → refuses m number ≡ false
  unfolding refuses
  refuses_lem m number made h =
      let crypt : (bit_and m.head.flag msg_flag_crypt == 0) ≡ true = made.not_crypt in
      let missing : is_missing m.record_template ≡ false = made.has_template in
      let big : leb (2 ^ 31) number ≡ false = ground arith in
      tests (bit_and m.head.flag msg_flag_crypt == 0) (is_missing m.record_template)
        (is_null m.blob) (leb (2 ^ 31) number) crypt missing big
    where
      tests :
          (crypt missing empty big : Bool)
          → crypt ≡ true
          → missing ≡ false
          → big ≡ false
          → ((not crypt && empty) || (missing && empty) || big) ≡ false
      tests crypt missing empty big p q r = rw (p, q, r) refl

module _ {S : Type 0} (ops : StructOps S) (memory : OutputMemory) (enough : Enough memory) where
  -- The tests let a message pass that was made here.
  pub output_blob-IsMade :
      (m : MessageBox S)
      → IsMade m
      → message_output_blob ops memory m
        ≡ append_expands ops memory
            (copy_records ops memory m (replicate bufsize 0) sizeof_msg_head null)
  unfolding message_output_blob
  output_blob-IsMade m made =
      let buffer : List ℕ = replicate bufsize 0 in
      let few : leb (2 ^ 31) m.head.expand_num ≡ false = ground (arith, made.expand_num_lt) in
      let plain : (refuses m m.head.record_num || leb (2 ^ 31) m.head.expand_num) ≡ false =
        ap₂ ◌||◌ (refuses_lem m m.head.record_num made made.record_num_lt) few in
      ap₂
        (λ b c.
          if not b
          then some (enomem, none, m)
          else if c
          then some (einval, none, m)
          else append_expands ops memory (copy_records ops memory m buffer sizeof_msg_head m.blob))
        enough.buffer plain
      ∙ ap (λ b. append_expands ops memory (copy_records ops memory m buffer sizeof_msg_head b))
          made.no_blob

  -- The output of a message that was made here, with memory for all and at most 4096 bytes, is its
  -- head with the new sizes, the bytes of its records and those of its expands, in order.
  -- message_output_blob returns their number, keeps the bytes in the sites, and leaves the message
  -- with a blob that was freed.
  pub message_output_blob-written :
      (m : MessageBox S) (records expands : List (List ℕ))
      → IsMade m
      → Each (RecordIs ops m.record_template) m.records records
      → Each (ExpandIs ops) m.expands expands
      → sizeof_msg_head + length (joined records) + length (joined expands) ≤ bufsize
      → (record_sites : List (Site S)) × (expand_sites : List (Site (MsgExpand S))) × Each Filled
          record_sites records
        × Each Filled expand_sites expands
        × (message_output_blob ops memory m
            ≡ some (
              pos (sizeof_msg_head + length (joined records ++ joined expands)),
              some (
                  head_bytes (output_head m (length (joined records)) (length (joined expands)))
                  ++ (joined records ++ joined expands)),
              written m record_sites expand_sites
                  (length (joined records))
                  (length (joined expands)),
            ))
  unfolding written output_head
  message_output_blob-written m records expands made rs es h =
      let buffer : List ℕ = replicate bufsize 0 in
      let room : length buffer ≡ bufsize = length-replicate {A = ℕ} bufsize 0 in
      let (record_sites, buffer', each_record, copied, len, is) =
        copy_records_lem ops memory enough m records buffer made.record_num_is rs (omega arith) in
      let m' : MessageBox S = record m {
        records = record_sites;
        head = record (m.head) { record_size = length (joined records) };
      } in
      let (expand_sites, each_expand, out) =
        append_expands_lem ops memory enough m' expands (joined records) buffer' 0
          made.expand_num_is es refl (omega arith) is in
      (
        record_sites,
        expand_sites,
        each_record,
        each_expand,
        output_blob-IsMade m made ∙ ap (append_expands ops memory) copied ∙ out,
      )
