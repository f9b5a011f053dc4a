-- ===== src/Message/RoundTrip.antt =====
-- A message that is put out and read back: message_output_blob and message_read_from_blob of
-- cubelib/message/message.c.
use cube.Prelude.{
  ℕ, zero, suc, ◌+◌, ◌-◌, ◌^◌, ◌≤◌, ◌<◌, ◌≡◌, refl, sym, ap, ap₂, ◌∙◌, Bool, true, false, ◌==◌,
  ◌||◌, ltb, if◌then◌else◌, none, some, List, [], ◌++◌, map, pos, length, length-append,
  length-replicate, memcpy, slice, slice_all, slice-memcpy, length-memcpy, drop, drop-length_append,
  All, replicate, arith,
}
use cube.Message.{
  joined, head_bytes, sizeof_msg_head, msg_box_loaddata, msg_box_rebuilding, MessageHead,
  MessageBox, null_site, array, StructOps,
}
use cube.Message.Output.{OutputMemory, bufsize}
use cube.Message.Output.Blob.{message_output_blob}
use cube.Message.Output.Copied.{Each, length-Each}
use cube.Message.Output.Loops.{RecordIs, ExpandIs}
use cube.Message.Output.Made.{Enough, IsMade, output_head, written}
use cube.Message.Output.Written.{message_output_blob-written}
use cube.Message.Output.Finish.{length-head_bytes}
use cube.Message.Sites.{alloc_sites}
use cube.Message.Input.{
  InputMemory, bad_head, total_size, cut_expands, rebuilt, with_sites, rebuild, message_read_head,
  message_read_data,
}
use cube.Message.Input.Behind.{with_offset, read_behind, message_read_from_blob}
use cube.Message.Input.Pieces.{Waits, read_data-last}
use cube.Message.Announced.{IsExpand, HasHeads, fresh, cut_expands_lem, All-IsExpand}

-- There is memory for all that is read.
pub record HasRoom (memory : InputMemory) : Type 0 where
  pub for_records : memory.for_records ≡ true
  pub for_expands : memory.for_expands ≡ true
  pub for_expand : (i : ℕ) → memory.for_expand i ≡ true

alloc_sites-nil : {A : Type 0} (n : ℕ) → (alloc_sites {A = A} true n []).1 ≡ replicate n null_site
unfolding alloc_sites
alloc_sites-nil zero = refl
alloc_sites-nil (suc n) = refl

memcpy-zeros :
    (n : ℕ) (bytes : List ℕ) → n ≡ length bytes → memcpy (replicate n 0) 0 bytes 0 n ≡ bytes
memcpy-zeros n bytes e =
    let zeros : List ℕ = replicate n 0 in
    let size : length zeros ≡ n = length-replicate n 0 in
    let out : List ℕ = memcpy zeros 0 bytes 0 n in
    sym (slice_all out)
    ∙ ap (slice out 0) (length-memcpy zeros 0 bytes 0 n ∙ size)
    ∙ slice-memcpy zeros 0 bytes 0 n (omega arith)
    ∙ ap (slice bytes 0) e
    ∙ slice_all bytes

or_true : (x y : Bool) → y ≡ true → (x || y) ≡ true
or_true true y e = refl
or_true false y e = e

module _ {S : Type 0} where
  -- The box behind message_read_head, and the one behind message_read_data.
  waiting : MessageHead → MessageBox S
  waiting h = record {
    head = h;
    record_template = none;
    box_state = msg_box_loaddata;
    head_size = pos sizeof_msg_head;
    records = [];
    expands = [];
    blob = array (replicate (total_size h) 0);
    current_offset = 0;
    policy = 0;
    active_msg = 0;
  }

  pub received : MessageHead → List ℕ → List (List ℕ) → MessageBox S
  received h contents expands = record {
    head = h;
    record_template = none;
    box_state = msg_box_rebuilding;
    head_size = pos sizeof_msg_head;
    records = replicate h.record_num null_site;
    expands = map fresh expands;
    blob = array contents;
    current_offset = 0;
    policy = 0;
    active_msg = 0;
  }

  read_head_lem :
      (h : MessageHead) (size : ℕ)
      → sizeof_msg_head ≤ size
      → bad_head h ≡ false
      → total_size h < 2 ^ 31
      → message_read_head {S = S} true true (pos sizeof_msg_head, h) size
        ≡ (pos sizeof_msg_head, some (waiting h))
  unfolding message_read_head waiting
  read_head_lem h size long good small =
      let whole : ltb size 180 ≡ false = ground arith in
      let fits : ltb (total_size h) (2 ^ 31) ≡ true = ground arith in rw (whole, good, fits) refl

  rebuild_lem :
      (memory : InputMemory) (h : MessageHead) (records : List ℕ) (expands : List (List ℕ))
      (size : ℕ)
      → HasRoom memory
      → h.expand_num ≡ length expands
      → h.record_size ≡ length records
      → All IsExpand expands
      → rebuild memory (waiting h) (records ++ joined expands) size
        ≡ some (pos size, received h (records ++ joined expands) expands)
  unfolding rebuild waiting received
  rebuild_lem memory h records expands size room n r x =
      let contents : List ℕ = records ++ joined expands in
      let base : MessageBox S = with_sites memory (waiting h) contents in
      ap₂ (λ b l. if b then rebuilt base size l else none)
        (or_true (h.expand_num == 0) memory.for_expands room.for_expands)
        (ap₂ (cut_expands memory.for_expand 0) n (
            ap (λ k. drop k contents) r
            ∙ drop-length_append records (joined expands) (length records) refl)
          ∙ cut_expands_lem memory.for_expand 0 expands room.for_expand x)
      ∙ ap (λ l. some (pos size, record (received h contents expands) { records = l }))
          (ap (λ b. (alloc_sites b h.record_num []).1) room.for_records
            ∙ alloc_sites-nil h.record_num)

  waiting-Waits : (h : MessageHead) → Waits (waiting h) (replicate (total_size h) 0) 0
  unfolding waiting
  waiting-Waits h = record { state = refl; data_is = refl; offset_is = refl }

  read_data_lem :
      (memory : InputMemory) (h : MessageHead) (records : List ℕ) (expands : List (List ℕ))
      → HasRoom memory
      → h.expand_num ≡ length expands
      → h.record_size ≡ length records
      → total_size h ≡ length (records ++ joined expands)
      → 0 < length (records ++ joined expands)
      → All IsExpand expands
      → message_read_data memory
          (waiting h)
          (some (records ++ joined expands))
          (pos (length (records ++ joined expands)))
        ≡ some (
          pos (length (records ++ joined expands)),
          received h (records ++ joined expands) expands,
        )
  unfolding waiting
  read_data_lem memory h records expands room n r total some_data x =
      let contents : List ℕ = records ++ joined expands in
      let zeros : List ℕ = replicate (total_size h) 0 in
      read_data-last memory (waiting h) zeros 0 contents (waiting-Waits h) some_data (omega arith)
      ∙ ap (λ k. rebuild memory (waiting h) (memcpy zeros 0 contents 0 (k - 0)) (k - 0)) total
      ∙ ap₂ (rebuild memory (waiting h))
          (ap (λ k. memcpy zeros 0 contents 0 k)
              (let z : length contents - 0 ≡ total_size h = omega arith in z)
            ∙ memcpy-zeros (total_size h) contents total)
          (omega arith)
      ∙ rebuild_lem memory h records expands (length contents) room n r x

  read_from_blob_lem :
      (input : InputMemory) (h : MessageHead) (records : List ℕ) (expands : List (List ℕ))
      → HasRoom input
      → h.expand_num ≡ length expands
      → h.record_size ≡ length records
      → total_size h ≡ length (records ++ joined expands)
      → 0 < length (records ++ joined expands)
      → length (records ++ joined expands) < 2 ^ 31
      → bad_head h ≡ false
      → All IsExpand expands
      → message_read_from_blob {S = S} true true input
          (pos sizeof_msg_head, h)
          (head_bytes h ++ (records ++ joined expands))
          (sizeof_msg_head + length (records ++ joined expands))
        ≡ some (
          pos (sizeof_msg_head + length (records ++ joined expands)),
          some (received h (records ++ joined expands) expands),
        )
  unfolding message_read_from_blob
  read_from_blob_lem input h records expands room n r total some_data few good x =
      let contents : List ℕ = records ++ joined expands in
      let size : ℕ = sizeof_msg_head + length contents in
      ap (read_behind input (head_bytes h ++ contents) size)
        (read_head_lem h size (omega arith) good (omega (arith, total)))
      ∙ ap₂ (λ l k. with_offset (message_read_data input (waiting h) (some l) (pos k)))
          (drop-length_append (head_bytes h) contents sizeof_msg_head (sym (length-head_bytes h)))
          (let z : size - sizeof_msg_head ≡ length contents = omega arith in z)
      ∙ ap with_offset (read_data_lem input h records expands room n r total some_data x)

bad_head-output_head :
    {S : Type 0} (m : MessageBox S) (r e : ℕ) → bad_head (output_head m r e) ≡ bad_head m.head
unfolding bad_head output_head
bad_head-output_head m r e = refl

total_size-output_head :
    {S : Type 0} (m : MessageBox S) (r e : ℕ)
    → r + e < 2 ^ 31
    → total_size (output_head m r e) ≡ r + e
unfolding output_head
total_size-output_head m r e h = omega arith

module _ {S : Type 0} (ops : StructOps S) (memory : OutputMemory) (enough : Enough memory) where
  -- A message that is put out and read back: where there is memory for all, the message was made
  -- here and has at least one byte besides its head, its head is one that message_read_head takes
  -- (with at most 10 expands), it needs at most 4096 bytes, and the head of an expand is 12 bytes,
  -- message_output_blob returns bytes from which message_read_from_blob, when blob_2_struct reads
  -- the head that was written, takes all and makes a message with that head, with the bytes of the
  -- records and expands as its blob, a site for each record, and the expands of the first message
  -- in the same order.
  pub message_read_from_blob-output :
      (input : InputMemory) (m : MessageBox S) (records expands : List (List ℕ))
      → HasRoom input
      → HasHeads ops
      → IsMade m
      → bad_head m.head ≡ false
      → Each (RecordIs ops m.record_template) m.records records
      → Each (ExpandIs ops) m.expands expands
      → sizeof_msg_head + length (joined records) + length (joined expands) ≤ bufsize
      → 0 < length (joined records) + length (joined expands)
      → (n : ℕ) × (out : List ℕ) × (m' : MessageBox S) × (message_output_blob ops memory m
          ≡ some (pos n, some out, m'))
        × (message_read_from_blob {S = S} true true input (pos sizeof_msg_head, m'.head) out n
            ≡ some (pos n, some (received m'.head (joined records ++ joined expands) expands)))
        × (m'.head ≡ output_head m (length (joined records)) (length (joined expands)))
  unfolding written
  message_read_from_blob-output input m records expands room twelve made good rs es fits some_data =
      let (record_sites, expand_sites, _, _, ran) =
        message_output_blob-written ops memory enough m records expands made rs es fits in
      let r : ℕ = length (joined records) in
      let e : ℕ = length (joined expands) in
      let h : MessageHead = output_head m r e in
      let size : length (joined records ++ joined expands) ≡ r + e =
        length-append (joined records) (joined expands) in
      (
        _,
        _,
        _,
        ran,
        read_from_blob_lem input h (joined records) expands room
            (unfold output_head in
              made.expand_num_is ∙ length-Each (ExpandIs ops) m.expands expands es)
            (unfold output_head in refl) (total_size-output_head m r e (omega arith) ∙ sym size)
            (omega arith) (omega arith) (bad_head-output_head m r e ∙ good)
            (All-IsExpand ops m.expands expands twelve es),
        refl,
      )
