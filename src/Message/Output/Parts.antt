-- ===== src/Message/Output/Parts.antt =====
-- The two parts of message_output_blob of cubelib/message/message.c: the records, and the expands with
-- the head.
use cube.Prelude.{
  ℕ, ◌+◌, ◌≤◌, ◌≡◌, sym, ap, ◌∙◌, if◌then◌else◌, some, List, ◌++◌, pos, length, length-append,
  slice, arith,
}
use cube.MessageQueue.{enomem}
use cube.Message.{
  joined, head_bytes, sizeof_msg_head, MessageBox, MsgExpand, Site, null, freed, StructOps,
}
use cube.Message.Output.{
  OutputMemory, with_record_size, with_expand_size, record_loop, expand_loop,
  message_record_struct2blob, message_expand_struct2blob,
}
use cube.Message.Output.Blob.{
  placed, copy_filled, finish_blob, finish_placed, finish_filled, copy_records, append_expands,
}
use cube.Message.Output.Finish.{finish_blob_lem}
use cube.Message.Output.Copied.{Each, Filled, length-Each, copy_sites_lem}
use cube.Message.Output.Loops.{RecordIs, ExpandIs, record_loop_lem, expand_loop_lem}
use cube.Message.Output.Made.{Enough, output_head}

module _ {S : Type 0} (ops : StructOps S) (memory : OutputMemory) (enough : Enough memory) where
  record_struct2blob_lem :
      (m : MessageBox S) (records : List (Site S)) (total : ℕ)
      → record_loop ops m.record_template memory.for_record 0 m.head.record_num m.records 0
        ≡ some (pos total, records)
      → message_record_struct2blob ops memory m
        ≡ some (
          pos total,
          record m { records = records; head = record (m.head) { record_size = total } },
        )
  unfolding message_record_struct2blob
  record_struct2blob_lem m records total e =
      ap
        (λ b.
          if b
          then with_record_size ops m
              (record_loop ops m.record_template memory.for_record 0 m.head.record_num m.records 0)
          else some (enomem, m))
        enough.record_buffer
      ∙ ap (with_record_size ops m) e

  expand_struct2blob_lem :
      (m : MessageBox S) (expands : List (Site (MsgExpand S))) (total : ℕ)
      → expand_loop ops memory.for_expand 0 m.head.expand_num m.expands 0
        ≡ some (pos total, expands)
      → message_expand_struct2blob ops memory m
        ≡ some (
          pos total,
          record m { expands = expands; head = record (m.head) { expand_size = total } },
        )
  unfolding message_expand_struct2blob
  expand_struct2blob_lem m expands total e =
      ap
        (λ b.
          if b
          then with_expand_size ops m
              (expand_loop ops memory.for_expand 0 m.head.expand_num m.expands 0)
          else some (enomem, m))
        enough.expand_buffer
      ∙ ap (with_expand_size ops m) e

  -- The records in the buffer.
  pub copy_records_lem :
      (m : MessageBox S) (bytes : List (List ℕ)) (buffer : List ℕ)
      → m.head.record_num ≡ length m.records
      → Each (RecordIs ops m.record_template) m.records bytes
      → sizeof_msg_head + length (joined bytes) ≤ length buffer
      → (records : List (Site S)) × (buffer' : List ℕ) × Each Filled records bytes
        × (copy_records ops memory m buffer sizeof_msg_head null
            ≡ some (
              pos 0,
              record m {
                records = records;
                head = record (m.head) { record_size = length (joined bytes) };
              },
              buffer',
              sizeof_msg_head + length (joined bytes),
            ))
        × (length buffer' ≡ length buffer)
        × (slice buffer' sizeof_msg_head (length (joined bytes)) ≡ joined bytes)
  unfolding copy_records slice
  copy_records_lem m bytes buffer e r h =
      let (records, ran, each) =
        record_loop_lem ops m.record_template memory.for_record enough.for_record 0
          m.head.record_num m.records 0 bytes e r in
      let m' : MessageBox S = record m {
        records = records;
        head = record (m.head) { record_size = length (joined bytes) };
      } in
      let number : m.head.record_num ≡ length records =
        e
        ∙ length-Each (RecordIs ops m.record_template) m.records bytes r
        ∙ sym (length-Each Filled records bytes each) in
      let at : ℕ → List ℕ = λ k. slice buffer sizeof_msg_head k in
      let (buffer', copied, len, is) =
        copy_sites_lem m.head.record_num records bytes buffer sizeof_msg_head 0 number each
          (let room : 180 + 0 + length (joined bytes) ≤ length buffer = omega arith in room) in
      (
        records,
        buffer',
        each,
        ap (copy_filled buffer sizeof_msg_head) (
              record_struct2blob_lem m records (length (joined bytes))
                (ran ∙ ap (λ k. some (pos k, records)) (omega arith)))
            ∙ ap (placed m') copied,
        len,
        ap (slice buffer' sizeof_msg_head)
              (let z : length (joined bytes) ≡ 0 + length (joined bytes) = omega arith in z)
            ∙ is,
      )

  -- The expands and the head, behind the records.
  pub append_expands_lem :
      (m : MessageBox S) (bytes : List (List ℕ)) (front buffer : List ℕ) (copied : ℕ)
      → m.head.expand_num ≡ length m.expands
      → Each (ExpandIs ops) m.expands bytes
      → m.head.record_size ≡ length front
      → sizeof_msg_head + length front + length (joined bytes) ≤ length buffer
      → slice buffer sizeof_msg_head (length front) ≡ front
      → (expands : List (Site (MsgExpand S))) × Each Filled expands bytes
        × (append_expands ops memory (some (pos copied, m, buffer, sizeof_msg_head + length front))
            ≡ some (
              pos (sizeof_msg_head + length (front ++ joined bytes)),
              some (
                  head_bytes (output_head m m.head.record_size (length (joined bytes)))
                  ++ (front ++ joined bytes)),
              record m {
                expands = expands;
                head = output_head m m.head.record_size (length (joined bytes));
                blob = freed;
              },
            ))
  unfolding append_expands output_head
  append_expands_lem m bytes front buffer copied e r fs h is =
      let (expands, ran, each) =
        expand_loop_lem ops memory.for_expand enough.for_expand 0 m.head.expand_num m.expands 0
          bytes e r in
      let number : m.head.expand_num ≡ length expands =
        e
        ∙ length-Each (ExpandIs ops) m.expands bytes r
        ∙ sym (length-Each Filled expands bytes each) in
      let m' : MessageBox S = record m {
        expands = expands;
        head = output_head m m.head.record_size (length (joined bytes));
      } in
      let (buffer', placed_at, len, now) =
        copy_sites_lem m.head.expand_num expands bytes buffer sizeof_msg_head (length front) number
          each h in
      let size : length (front ++ joined bytes) ≡ length front + length (joined bytes) =
        length-append front (joined bytes) in
      (
        expands,
        each,
        ap (finish_filled memory.out buffer (sizeof_msg_head + length front)) (
              expand_struct2blob_lem m expands (length (joined bytes))
                (ran ∙ ap (λ k. some (pos k, expands)) (omega arith)))
            ∙ ap (finish_placed memory.out m') placed_at
            ∙ ap (λ b. finish_blob b m' buffer') enough.out
            ∙ finish_blob_lem m' buffer' (front ++ joined bytes) (omega arith) (omega arith)
                (ap (slice buffer' sizeof_msg_head) size ∙ now ∙ ap (λ l. l ++ joined bytes) is),
      )
