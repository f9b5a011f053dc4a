-- ===== src/Message/Input.antt =====
-- A message from bytes: message_read_head and message_read_data of cubelib/message/message.c.
pub mod Behind
pub mod Pieces
pub mod Chunks
pub mod Source
use cube.Prelude.{
  ℕ, zero, suc, ◌+◌, ◌-◌, ◌%◌, ◌^◌, Bool, true, false, not, ◌==◌, ◌&&◌, ◌||◌, ltb, leb,
  if◌then◌else◌, Option, none, some, List, [], ◌∷◌, ◌++◌, ℤ, pos, negsuc, einval, is_zero, length,
  drop, take, memcpy, min, replicate,
}
use cube.EnumFlag.{load}
use cube.Strings.{strncmp}
use cube.MessageQueue.{enomem, is_negative}
use cube.Message.{
  BoxState, msg_box_init, msg_box_add, msg_box_expand, msg_box_deal, msg_box_loaddata,
  msg_box_rebuilding, msg_box_recover, msg_box_cut, msg_box_read, msg_box_error, MessageHead,
  MessageBox, MsgExpand, Site, null_site, Blob, null, array, freed, StructOps, sizeof_msg_head,
  max_expand_num,
}
use cube.Message.Sites.{alloc_sites, message_init}
use cube.Message.Output.{Sizes, behind, size_of_expand}

abbrev pub is_loaddata : BoxState → Bool
is_loaddata msg_box_loaddata = true
is_loaddata _ = false

-- `record_size+expand_size`, as the 32 bits of an `int`. `message_read_head` has no data for a negative
-- one, so that the comparisons with it are of numbers below 2 ^ 31.
abbrev pub total_size : MessageHead → ℕ
total_size h = (h.record_size + h.expand_size) % 2 ^ 32

-- The tests of a head that was read. A number over 2 ^ 31 is negative.
unfoldable pub bad_head : MessageHead → Bool
bad_head h =
    leb (2 ^ 31) h.record_num
    || leb (2 ^ 31) h.expand_num
    || ltb max_expand_num h.expand_num
    || not (is_zero (strncmp h.tag (b'M' ∷ b'E' ∷ b'S' ∷ b'G' ∷ 0 ∷ []) 4))
    || not (h.version == 0x00010001)

-- Whether there is memory for the sites, and for the expand at an index.
pub record InputMemory : Type 0 where
  pub for_records : Bool
  pub for_expands : Bool
  pub for_expand : ℕ → Bool

module _ {S : Type 0} where
  -- `message_read_head` of `blob_size` bytes: `parsed` is what `blob_2_struct` returns and the head
  -- that it makes of them, and the allocations are that of the box and that of the data, which
  -- `kmalloc` refuses for a negative size. The result, and `*message` where it is set.
  unfoldable pub message_read_head : Bool → Bool → ℤ × MessageHead → ℕ → ℤ × Option (MessageBox S)
  unfolding message_init bad_head
  message_read_head for_box for_data (head_size, head) blob_size =
      if ltb blob_size sizeof_msg_head then (einval, none) else elim (message_init for_box) [
        | none ↦ (einval, none)
        | some m ↦
            if is_negative head_size || is_zero head_size || bad_head head
            then (einval, none)
            else if for_data && ltb (total_size head) (2 ^ 31)
            then (
              pos sizeof_msg_head,
              some (record m {
                head = head;
                head_size = head_size;
                current_offset = 0;
                box_state = msg_box_loaddata;
                blob = array (replicate (total_size head) 0);
              }),
            )
            else (enomem, none)
      ]

  -- One expand of the loop of `message_read_data`, with its size; `rest` goes on behind it.
  unfoldable pub cut_expand :
      Bool → ℕ → List ℕ → (ℕ → Sizes (MsgExpand S)) → Option ℕ → Sizes (MsgExpand S)
  cut_expand memory n bytes rest none = none
  cut_expand memory n bytes rest (some size) =
      let site : Site (MsgExpand S) = record {
        bytes = some (take size bytes);
        struct = none;
        size = size;
      } in
      if ltb (length bytes) 4
      then none
      else if not memory
      then some (enomem, record site { bytes = none } ∷ replicate n null_site)
      else if ltb (length bytes) size
      then none
      else behind site (rest size)

  -- The loop over the expands in the data: the status and the sites. A size that leads out of the
  -- data is `none`.
  unfoldable pub cut_expands : (ℕ → Bool) → ℕ → ℕ → List ℕ → Sizes (MsgExpand S)
  unfolding size_of_expand cut_expand
  cut_expands memory i zero bytes = some (pos 0, [])
  cut_expands memory i (suc n) bytes =
      cut_expand (memory i) n bytes (λ size. cut_expands memory (i + 1) n (drop size bytes))
        (size_of_expand bytes)

  -- The end of `message_read_data` behind its loop.
  unfoldable pub rebuilt :
      MessageBox S → ℕ → Option (ℤ × List (Site (MsgExpand S))) → Option (ℤ × MessageBox S)
  rebuilt ready new_size none = none
  rebuilt ready new_size (some (negsuc status, sites)) =
      some (negsuc status, record ready { expands = sites })
  rebuilt ready new_size (some (pos status, sites)) =
      some (pos new_size, record ready { expands = sites; box_state = msg_box_rebuilding })

  -- The box with its data complete and with the sites of its records.
  unfoldable pub with_sites : InputMemory → MessageBox S → List ℕ → MessageBox S
  unfolding alloc_sites
  with_sites memory m contents = record m {
    blob = array contents;
    current_offset = 0;
    records = (alloc_sites memory.for_records m.head.record_num m.records).1;
  }

  -- The sites and the expands of a message whose data is complete.
  unfoldable pub rebuild : InputMemory → MessageBox S → List ℕ → ℕ → Option (ℤ × MessageBox S)
  unfolding with_sites cut_expands rebuilt
  rebuild memory m contents new_size =
      if m.head.expand_num == 0 || memory.for_expands
      then rebuilt (with_sites memory m contents) new_size
          (cut_expands memory.for_expand 0 m.head.expand_num (drop m.head.record_size contents))
      else none

  -- `message_read_data` of the first `size` bytes of `chunk`, into the data of the box.
  unfoldable pub read_chunk :
      InputMemory → MessageBox S → List ℕ → ℕ → Blob → Option (ℤ × MessageBox S)
  unfolding rebuild
  read_chunk memory m chunk size null = none
  read_chunk memory m chunk size freed = none
  read_chunk memory m chunk size (array contents) =
      let total : ℕ = total_size m.head in
      let new_size : ℕ = total - m.current_offset in
      if leb total (size + m.current_offset)
      then rebuild memory m (memcpy contents m.current_offset chunk 0 new_size) new_size
      else some (
        pos 0,
        record m {
          blob = array (memcpy contents m.current_offset chunk 0 size);
          current_offset = m.current_offset + size;
        },
      )

  -- `message_read_data`.
  unfoldable pub message_read_data :
      InputMemory → MessageBox S → Option (List ℕ) → ℤ → Option (ℤ × MessageBox S)
  unfolding read_chunk
  message_read_data memory m none size = some (einval, m)
  message_read_data memory m (some chunk) (negsuc size) = some (einval, m)
  message_read_data memory m (some chunk) (pos size) =
      if not (is_loaddata m.box_state) || size == 0
      then some (einval, m)
      else read_chunk memory m chunk size m.blob
