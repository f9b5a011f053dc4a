-- ===== src/Message.antt =====
-- Messages: cubelib/message/message.c with its message_box.h and cubelib/include/message.h. What the
-- templates of cubelib/struct_mod do to a struct is taken as a record of operations.
pub mod Sites
pub mod Records
pub mod Expands
pub mod Output
pub mod Input
pub mod Announced
pub mod RoundTrip
pub mod Refused
pub mod Head
mod Tests
use cube.Prelude.{ℕ, Bool, Option, none, List, [], ◌∷◌, ◌++◌, ℤ, pos, slice}
use cube.EnumFlag.{store}

-- `enum message_box_state`.
pub data BoxState : Type 0 where
  msg_box_init : BoxState
  msg_box_add : BoxState
  msg_box_expand : BoxState
  msg_box_deal : BoxState
  msg_box_loaddata : BoxState
  msg_box_rebuilding : BoxState
  msg_box_recover : BoxState
  msg_box_cut : BoxState
  msg_box_read : BoxState
  msg_box_error : BoxState

-- `MSG_FLAG_CRYPT` and `MAX_EXPAND_NUM`.
abbrev pub msg_flag_crypt : ℕ
msg_flag_crypt = 0x10

abbrev pub max_expand_num : ℕ
max_expand_num = 10

-- `MSG_HEAD`. An `int` is its 32 bits as a number.
pub record MessageHead : Type 0 where
  pub tag : List ℕ
  pub version : ℕ
  pub sender_uuid : List ℕ
  pub receiver_uuid : List ℕ
  pub route : List ℕ
  pub flow : ℕ
  pub state : ℕ
  pub flag : ℕ
  pub ljump : ℕ
  pub rjump : ℕ
  pub record_type : ℕ
  pub record_subtype : ℕ
  pub record_num : ℕ
  pub record_size : ℕ
  pub expand_num : ℕ
  pub expand_size : ℕ
  pub nonce : List ℕ

-- The bytes of an `int`, and those of a packed `MSG_HEAD`.
abbrev pub int_bytes : ℕ → List ℕ
int_bytes n = store 4 n (0 ∷ 0 ∷ 0 ∷ 0 ∷ [])

abbrev pub sizeof_msg_head : ℕ
sizeof_msg_head = 180

abbrev pub joined : List (List ℕ) → List ℕ
joined [] = []
joined (b ∷ bytes) = b ++ joined bytes

pub head_bytes : MessageHead → List ℕ
head_bytes h = joined (
    slice h.tag 0 4
    ∷ int_bytes h.version
    ∷ slice h.sender_uuid 0 32
    ∷ slice h.receiver_uuid 0 32
    ∷ slice h.route 0 32
    ∷ int_bytes h.flow
    ∷ int_bytes h.state
    ∷ int_bytes h.flag
    ∷ int_bytes h.ljump
    ∷ int_bytes h.rjump
    ∷ int_bytes h.record_type
    ∷ int_bytes h.record_subtype
    ∷ int_bytes h.record_num
    ∷ int_bytes h.record_size
    ∷ int_bytes h.expand_num
    ∷ int_bytes h.expand_size
    ∷ slice h.nonce 0 32
    ∷ [])

-- `MSG_EXPAND` with the struct behind its pointer, and the size of `MSG_EXPAND_HEAD`.
pub record MsgExpand (S : Type 0) : Type 0 where
  pub data_size : ℕ
  pub type : ℕ
  pub subtype : ℕ
  pub expand : S

abbrev pub sizeof_expand_head : ℕ
sizeof_expand_head = 12

-- One index of the arrays `record`, `precord` and `record_size`, or of `expand`, `pexpand` and
-- `expand_size`: the bytes, the struct, and the size of the bytes. `none` is NULL.
pub record Site (S : Type 0) : Type 0 where
  pub bytes : Option (List ℕ)
  pub struct : Option S
  pub size : ℕ

abbrev pub null_site : {S : Type 0} → Site S
null_site = record { bytes = none; struct = none; size = 0 }

-- The field `blob`: NULL, an array, or an array that was freed.
pub data Blob : Type 0 where
  null : Blob
  array : List ℕ → Blob
  freed : Blob

-- `struct message_box`. A template is named by its type and subtype; `policy` and `active_msg` are
-- pointers.
pub record MessageBox (S : Type 0) : Type 0 where
  pub head : MessageHead
  pub record_template : Option (ℕ × ℕ)
  pub box_state : BoxState
  pub head_size : ℤ
  pub records : List (Site S)
  pub expands : List (Site (MsgExpand S))
  pub blob : Blob
  pub current_offset : ℕ
  pub policy : ℕ
  pub active_msg : ℕ

-- What struct_deal.c and memdb.c do: whether there is a template, `struct_2_blob` with the bytes
-- that it writes, `blob_2_struct` with the struct that it makes, `struct_clone` and `clone_struct`,
-- and `struct_2_blob` of the head of an expand.
pub record StructOps (S : Type 0) : Type 0 where
  pub has_template : ℕ × ℕ → Bool
  pub struct_2_blob : ℕ × ℕ → S → ℤ × List ℕ
  pub blob_2_struct : ℕ × ℕ → List ℕ → ℤ × S
  pub struct_clone : ℕ × ℕ → S → ℤ × S
  pub clone_struct : ℕ × ℕ → S → Option S
  pub expand_head_2_blob : MsgExpand S → ℤ × List ℕ

-- The template of the records of a message.
abbrev pub template_of : {S : Type 0} → MessageBox S → ℕ × ℕ
template_of m = (m.head.record_type, m.head.record_subtype)
