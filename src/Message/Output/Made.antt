-- ===== src/Message/Output/Made.antt =====
-- Messages that were made here, for message_output_blob of cubelib/message/message.c, and what they
-- are behind it.
use cube.Prelude.{ℕ, ◌^◌, ◌<◌, ◌≡◌, true, false, ◌==◌, List, length, bit_and}
use cube.Message.{MessageHead, MessageBox, MsgExpand, Site, null, freed, msg_flag_crypt}
use cube.Message.Output.{OutputMemory}
use cube.Message.Output.Blob.{is_missing}

-- There is memory for all.
pub record Enough (memory : OutputMemory) : Type 0 where
  pub buffer : memory.buffer ≡ true
  pub record_buffer : memory.record_buffer ≡ true
  pub expand_buffer : memory.expand_buffer ≡ true
  pub for_record : (i : ℕ) → memory.for_record i ≡ true
  pub for_expand : (i : ℕ) → memory.for_expand i ≡ true
  pub out : memory.out ≡ true

module _ {S : Type 0} where
  -- A message that was made here: a template, no bytes, not encrypted, and numbers that are those
  -- of its sites.
  pub record IsMade (m : MessageBox S) : Type 0 where
    pub no_blob : m.blob ≡ null
    pub has_template : is_missing m.record_template ≡ false
    pub not_crypt : (bit_and m.head.flag msg_flag_crypt == 0) ≡ true
    pub record_num_is : m.head.record_num ≡ length m.records
    pub expand_num_is : m.head.expand_num ≡ length m.expands
    pub record_num_lt : m.head.record_num < 2 ^ 31
    pub expand_num_lt : m.head.expand_num < 2 ^ 31

  -- The message with the sizes of what was written.
  unfoldable pub output_head : MessageBox S → ℕ → ℕ → MessageHead
  output_head m record_size expand_size = record (m.head) {
    record_size = record_size;
    expand_size = expand_size;
  }

  -- The message behind its output.
  unfoldable pub written :
      MessageBox S → List (Site S) → List (Site (MsgExpand S)) → ℕ → ℕ → MessageBox S
  unfolding output_head
  written m records expands record_size expand_size = record m {
    records = records;
    expands = expands;
    blob = freed;
    head = output_head m record_size expand_size;
  }
