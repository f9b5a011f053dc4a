-- ===== src/Message/Output.antt =====
-- A message as bytes: message_record_struct2blob and message_expand_struct2blob of
-- cubelib/message/message.c, and in Blob the functions that use them. The loops count down from the number
-- in the head; `none` is an access outside of an array, or to an array that was freed.
pub mod Blob
pub mod Copied
pub mod Loops
pub mod Finish
pub mod Made
pub mod Parts
pub mod Written
pub mod Again
use cube.Prelude.{
  ℕ, zero, suc, ◌+◌, ◌%◌, ◌^◌, Bool, true, false, ◌&&◌, ltb, leb, if◌then◌else◌, Option, none, some,
  List, [], ◌∷◌, ◌++◌, ℤ, pos, negsuc, einval, length, memcpy,
}
use cube.EnumFlag.{load, store}
use cube.MessageQueue.{enomem}
use cube.Message.{MessageBox, MsgExpand, Site, StructOps, sizeof_expand_head}

-- The size of the local buffers.
abbrev pub bufsize : ℕ
bufsize = 4096

-- `data_size + sizeof(MSG_EXPAND_HEAD)` of the bytes of an expand, as an `int`. A copy of a negative
-- size goes out of range.
unfoldable pub size_of_expand : List ℕ → Option ℕ
size_of_expand bytes =
    let size : ℕ = (load 4 bytes + sizeof_expand_head) % 2 ^ 32 in
    if ltb size (2 ^ 31) then some size else none

-- A struct as bytes in the buffer: the status of an error, or the bytes.
pub data Encoded : Type 0 where
  error : ℤ → Encoded
  encoded : List ℕ → Encoded

-- `ret<0` behind `struct_2_blob`.
unfoldable pub check_status : ℤ × List ℕ → Encoded
check_status (pos n, bytes) = encoded bytes
check_status (negsuc n, bytes) = error (negsuc n)

-- The head of an expand and its struct in the buffer, with the size of the struct stored over the
-- start.
unfoldable pub join_expand : Encoded → Encoded → Option Encoded
join_expand (error status) body = some (error status)
join_expand (encoded front) (error status) = some (error status)
join_expand (encoded front) (encoded bytes) =
    if ltb bufsize (length front + length bytes)
    then none
    else some (encoded (store 4 (length bytes) (front ++ bytes)))

-- What a loop over sites ends with: the status or the sum of the sizes, and the sites.
abbrev pub Sizes : Type 0 → Type 0
Sizes A = Option (ℤ × List (Site A))

-- A site in front of those that a loop made.
abbrev pub behind : {A : Type 0} → Site A → Sizes A → Sizes A
behind s none = none
behind s (some (status, sites)) = some (status, s ∷ sites)

-- The new bytes of a site, of `rest` with the sites behind it.
unfoldable pub fill_site : {A : Type 0} → Bool → Site A → List (Site A) → List ℕ → Sizes A → Sizes A
fill_site memory s sites bytes rest =
    if memory
    then behind (record s { bytes = some bytes; size = length bytes }) rest
    else some (enomem, record s { bytes = none; size = length bytes } ∷ sites)

-- What a loop does with a struct as bytes; `rest` goes on with the size of the bytes.
unfoldable pub fill_encoded :
    {A : Type 0} → Bool → Site A → List (Site A) → (ℕ → Sizes A) → Option Encoded → Sizes A
unfolding fill_site
fill_encoded memory s sites rest none = none
fill_encoded memory s sites rest (some (error status)) = some (status, s ∷ sites)
fill_encoded memory s sites rest (some (encoded bytes)) =
    fill_site memory s sites bytes (rest (length bytes))

-- The bytes of a site stay, with the size that they announce.
unfoldable pub resize_site : {A : Type 0} → Site A → (ℕ → Sizes A) → Option ℕ → Sizes A
resize_site s rest none = none
resize_site s rest (some size) = behind (record s { size = size }) (rest size)

-- Whether there is memory for the buffers, for the bytes of the sites and for the result.
pub record OutputMemory : Type 0 where
  pub buffer : Bool
  pub record_buffer : Bool
  pub expand_buffer : Bool
  pub for_record : ℕ → Bool
  pub for_expand : ℕ → Bool
  pub out : Bool

-- A copy to the buffer, within both arrays.
unfoldable pub copy_to : List ℕ → ℕ → List ℕ → ℕ → Option (List ℕ)
copy_to buffer offset bytes size =
    if leb (offset + size) (length buffer) && leb size (length bytes)
    then some (memcpy buffer offset bytes 0 size)
    else none

-- The loops that put the bytes of the sites one behind the other: the buffer and the offset.
unfoldable pub copy_sites : {A : Type 0} → ℕ → List (Site A) → List ℕ → ℕ → Option (List ℕ × ℕ)
unfolding copy_to
copy_sites zero sites buffer offset = some (buffer, offset)
copy_sites (suc n) [] buffer offset = none
copy_sites (suc n) (s ∷ sites) buffer offset = elim s.bytes [
  | none ↦ none
  | some bytes ↦ elim (copy_to buffer offset bytes s.size) [
    | none ↦ none
    | some buffer' ↦ copy_sites n sites buffer' (offset + s.size)
  ]
]

module _ {S : Type 0} (ops : StructOps S) where
  -- `struct_2_blob` of a record into the buffer.
  unfoldable pub encode_record : Option (ℕ × ℕ) → S → Option Encoded
  unfolding check_status
  encode_record none value = none
  encode_record (some template) value =
      let (status, bytes) = ops.struct_2_blob template value in
      if ltb bufsize (length bytes) then none else some (check_status (status, bytes))

  -- The head of an expand and its struct.
  unfoldable pub encode_expand : MsgExpand S → Option Encoded
  unfolding check_status join_expand
  encode_expand e =
      if ops.has_template (e.type, e.subtype)
      then join_expand (check_status (ops.expand_head_2_blob e))
          (check_status (ops.struct_2_blob (e.type, e.subtype) e.expand))
      else some (error einval)

  -- The loop of `message_record_struct2blob` from the index `i` on.
  unfoldable pub record_loop : Option (ℕ × ℕ) → (ℕ → Bool) → ℕ → ℕ → List (Site S) → ℕ → Sizes S
  unfolding encode_record fill_encoded
  record_loop template memory i zero sites total = some (pos total, sites)
  record_loop template memory i (suc n) [] total = none
  record_loop template memory i (suc n) (s ∷ sites) total = elim s.bytes [
    | some b ↦ behind s (record_loop template memory (i + 1) n sites (total + s.size))
    | none ↦ elim s.struct [
      | none ↦ some (einval, s ∷ sites)
      | some value ↦
          fill_encoded (memory i) s sites
            (λ size. record_loop template memory (i + 1) n sites (total + size))
            (encode_record template value)
    ]
  ]

  -- The loop of `message_expand_struct2blob`.
  unfoldable pub expand_loop :
      (ℕ → Bool) → ℕ → ℕ → List (Site (MsgExpand S)) → ℕ → Sizes (MsgExpand S)
  unfolding encode_expand fill_encoded resize_site size_of_expand
  expand_loop memory i zero sites total = some (pos total, sites)
  expand_loop memory i (suc n) [] total = none
  expand_loop memory i (suc n) (s ∷ sites) total = elim s.struct [
    | some e ↦
        fill_encoded (memory i) s sites (λ size. expand_loop memory (i + 1) n sites (total + size))
          (encode_expand e)
    | none ↦ elim s.bytes [
      | none ↦ some (einval, s ∷ sites)
      | some b ↦
          resize_site s (λ size. expand_loop memory (i + 1) n sites (total + size))
            (size_of_expand b)
    ]
  ]

  -- The size that a loop computed goes to the head, unless it ended with an error.
  pub with_record_size : MessageBox S → Option (ℤ × List (Site S)) → Option (ℤ × MessageBox S)
  with_record_size m none = none
  with_record_size m (some (pos total, sites)) =
      some (pos total, record m { records = sites; head = record (m.head) { record_size = total } })
  with_record_size m (some (negsuc status, sites)) =
      some (negsuc status, record m { records = sites })

  pub with_expand_size :
      MessageBox S → Option (ℤ × List (Site (MsgExpand S))) → Option (ℤ × MessageBox S)
  with_expand_size m none = none
  with_expand_size m (some (pos total, sites)) =
      some (pos total, record m { expands = sites; head = record (m.head) { expand_size = total } })
  with_expand_size m (some (negsuc status, sites)) =
      some (negsuc status, record m { expands = sites })

  -- `message_record_struct2blob`.
  unfoldable pub message_record_struct2blob :
      OutputMemory → MessageBox S → Option (ℤ × MessageBox S)
  unfolding record_loop with_record_size
  message_record_struct2blob memory m =
      if memory.record_buffer
      then with_record_size m
          (record_loop m.record_template memory.for_record 0 m.head.record_num m.records 0)
      else some (enomem, m)

  -- `message_expand_struct2blob`.
  unfoldable pub message_expand_struct2blob :
      OutputMemory → MessageBox S → Option (ℤ × MessageBox S)
  unfolding expand_loop with_expand_size
  message_expand_struct2blob memory m =
      if memory.expand_buffer
      then with_expand_size m (expand_loop memory.for_expand 0 m.head.expand_num m.expands 0)
      else some (enomem, m)
