-- ===== src/Channel.antt =====
-- The channels of cubelib/channel/channel.c: two channel buffers between the owner of a channel and
-- the modules that use it, and the list of registered channels.
pub mod Create
pub mod Transfer
pub mod Session
pub mod Registry
mod Tests
use cube.Prelude.{
  ℕ, Bool, true, false, not, Option, none, some, List, [], ◌∷◌, ℤ, pos, negsuc, einval, ltb, leb,
  ◌==◌, bit_and, is_zero, if◌then◌else◌, replicate, digest_size,
}
use cube.Strings.{strncpy, strncmp}
use cube.ChannelBuf
use cube.ChannelBuf.{ChannelBuf, membuf_create}

-- `enum channel_type`, the members that channel.c reads, and `CHANNEL_INIT`.
abbrev pub channel_read_flag : ℕ
channel_read_flag = 0x01

abbrev pub channel_write_flag : ℕ
channel_write_flag = 0x02

abbrev pub channel_fixmem : ℕ
channel_fixmem = 0x100

abbrev pub channel_shutdown : ℕ
channel_shutdown = 0x1000

abbrev pub channel_init_state : ℕ
channel_init_state = 0x01

-- `CHANNEL_BUF_SIZE`.
abbrev pub channel_buf_size : ℕ
channel_buf_size = 4000

-- `CHANNEL`, the fields that channel.c uses; `none` is NULL.
pub record Channel : Type 0 where
  pub name : List ℕ
  pub type : ℕ
  pub state : ℕ
  pub read_buf : Option ChannelBuf
  pub write_buf : Option ChannelBuf

-- `type & flag` as a condition.
unfoldable pub has_flag : ℕ → ℕ → Bool
has_flag type flag = not (bit_and type flag == 0)

-- What the functions that create a channel return: NULL, the number -EINVAL as a pointer, or a
-- channel; `crashed` is a store through NULL.
pub data Created : Type 0 where
  null : Created
  crashed : Created
  invalid : Created
  made : Channel → Created

add_write_buf : Channel → Option ChannelBuf → Created
add_write_buf c buf =
    if has_flag c.type channel_write_flag
    then elim buf [ none ↦ null | some b ↦ made (record c { write_buf = some b }) ]
    else made c

-- The two buffers, as far as the type asks for them, from what their creation returned.
add_bufs : Channel → Option ChannelBuf → Option ChannelBuf → Created
unfolding add_write_buf
add_bufs c for_read for_write =
    if has_flag c.type channel_read_flag
    then elim for_read [
      | none ↦ null
      | some b ↦ add_write_buf (record c { read_buf = some b }) for_write
    ]
    else add_write_buf c for_write

-- The start of both functions that create: the channel without buffers, or `some none` for NULL.
-- Without memory `Salloc` stores through NULL, which is `none`.
new_channel : List ℕ → ℤ → Bool → Option (Option Channel)
new_channel name (negsuc n) allocated = some none
new_channel name (pos type) allocated =
    if type == 0
    then some none
    else if ltb channel_shutdown type
    then some none
    else if allocated
    then some (
        some (record {
          name = strncpy (replicate digest_size 0) name digest_size;
          type = type;
          state = channel_init_state;
          read_buf = none;
          write_buf = none;
        }))
    else none

-- `channel_create`: three Booleans tell whether the channel and the two buffers get memory.
pub channel_create : List ℕ → ℤ → Bool → Bool → Bool → Created
unfolding new_channel add_bufs
channel_create name type allocated read_allocated write_allocated =
    elim (new_channel name type allocated) [
      | none ↦ crashed
      | some none ↦ null
      | some (some c) ↦
          if has_flag c.type channel_fixmem
          then invalid
          else add_bufs c (ChannelBuf.create (pos channel_buf_size) read_allocated)
              (ChannelBuf.create (pos channel_buf_size) write_allocated)
    ]

-- `channel_create_fixmem` on two separate pieces of memory of the caller, `none` for NULL.
pub channel_create_fixmem : List ℕ → ℤ → ℤ → Option ChannelBuf → Option ChannelBuf → Bool → Created
unfolding new_channel add_bufs
channel_create_fixmem name type size readaddr writeaddr allocated =
    elim (new_channel name type allocated) [
      | none ↦ crashed
      | some none ↦ null
      | some (some c) ↦
          if has_flag c.type channel_fixmem
          then add_bufs c (membuf_create size readaddr) (membuf_create size writeaddr)
          else invalid
    ]

-- The calls of `channel_buf_read` and `channel_buf_write`, `none` for a NULL buffer: the status,
-- the array of the caller and the buffer afterwards.
take_from : Option ChannelBuf → List ℕ → ℕ → Option (ℤ × List ℕ × ChannelBuf)
take_from none bytes size = none
take_from (some b) bytes size =
    let (n, bytes', b') = ChannelBuf.read b bytes size in some (pos n, bytes', b')

put_into : Option ChannelBuf → List ℕ → ℕ → Option (ℤ × ChannelBuf)
put_into none bytes size = none
put_into (some b) bytes size = let (n, b') = ChannelBuf.write b bytes size in some (pos n, b')

-- `channel_read` and `channel_inner_read`; `none` is an access through NULL.
pub channel_read : Channel → List ℕ → ℕ → Option (ℤ × List ℕ × Channel)
unfolding take_from
channel_read c bytes size =
    if has_flag c.type channel_read_flag
    then elim (take_from c.read_buf bytes size) [
      | none ↦ none
      | some (n, bytes', b) ↦ some (n, bytes', record c { read_buf = some b })
    ]
    else some (einval, bytes, c)

pub channel_inner_read : Channel → List ℕ → ℕ → Option (ℤ × List ℕ × Channel)
unfolding take_from
channel_inner_read c bytes size =
    if has_flag c.type channel_write_flag
    then elim (take_from c.write_buf bytes size) [
      | none ↦ none
      | some (n, bytes', b) ↦ some (n, bytes', record c { write_buf = some b })
    ]
    else some (einval, bytes, c)

-- `channel_write` and `channel_inner_write`.
pub channel_write : Channel → List ℕ → ℕ → Option (ℤ × Channel)
unfolding put_into
channel_write c bytes size =
    if has_flag c.type channel_write_flag
    then elim (put_into c.write_buf bytes size) [
      | none ↦ none
      | some (n, b) ↦ some (n, record c { write_buf = some b })
    ]
    else some (einval, c)

pub channel_inner_write : Channel → List ℕ → ℕ → Option (ℤ × Channel)
unfolding put_into
channel_inner_write c bytes size =
    if has_flag c.type channel_read_flag
    then elim (put_into c.read_buf bytes size) [
      | none ↦ none
      | some (n, b) ↦ some (n, record c { read_buf = some b })
    ]
    else some (einval, c)
