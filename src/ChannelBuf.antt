-- ===== src/ChannelBuf.antt =====
-- The byte buffer of a channel: cubelib/channel/channel_buf.c. The error line that a write prints
-- when it cannot store all bytes is left out. Sizes of a read or a write are not negative.
pub mod Contents
pub mod Read
pub mod Write
pub mod Stream
mod Tests
use cube.Prelude.{
  ℕ, ◌+◌, ◌-◌, ◌%◌, ◌^◌, ◌&&◌, Bool, true, false, Option, none, some, List, ℤ, pos, negsuc, ltb,
  ◌==◌, if◌then◌else◌, replicate, memcpy,
}

-- `CHANNEL_BUF`, with the bytes of the memory block at whose start it stands. The first
-- `sizeof(CHANNEL_BUF)` bytes of the block are the header's own and are not used through `block`.
pub record ChannelBuf : Type 0 where
  pub bufsize : ℕ
  pub offset : ℕ
  pub last_read_tail : ℕ
  pub last_write_tail : ℕ
  pub block : List ℕ

abbrev pub header_size : ℕ
header_size = 8

-- A store into a `UINT16` field.
abbrev pub u16 : ℕ → ℕ
u16 n = n % 2 ^ 16

-- `channel_buf_create`: `allocated` tells whether `Dalloc0` returned memory, which it zeroes.
unfoldable pub create : ℤ → Bool → Option ChannelBuf
create (negsuc _) allocated = none
create (pos size) allocated =
    if ltb 32767 size
    then none
    else if allocated
    then some (record {
      bufsize = u16 size;
      offset = header_size;
      last_read_tail = 0;
      last_write_tail = 0;
      block = replicate (size + header_size) 0;
    })
    else none

-- `channel_membuf_create`: the memory as it is seen through a `CHANNEL_BUF`, or `none` for NULL.
-- The test against `sizeof` is unsigned, so a negative size passes it; the tails stay as they are.
pub membuf_create : ℤ → Option ChannelBuf → Option ChannelBuf
membuf_create size none = none
membuf_create (negsuc n) (some buf) =
    some (record buf { bufsize = u16 (2 ^ 64 - (n + 9)); offset = header_size })
membuf_create (pos size) (some buf) =
    if ltb size header_size
    then none
    else if ltb 32767 size
    then none
    else some (record buf { bufsize = u16 (size - 8); offset = header_size })

-- `channel_buf_read`: the count, the caller's array and the buffer afterwards.
unfoldable pub read : ChannelBuf → List ℕ → ℕ → ℕ × List ℕ × ChannelBuf
read b into size =
    if r == w
    then (0, into, b)
    else if ltb r w
    then (if ltb size (w - r)
        then (size, memcpy into 0 b.block (b.offset + r) size, moved (r + size))
        else (w - r, memcpy into 0 b.block (b.offset + r) (w - r), moved w))
    else if ltb size tail_block_size
    then (size, memcpy into 0 b.block (b.offset + r) size, moved (r + size))
    else if ltb size left_data
    then (
      size,
      memcpy front tail_block_size b.block b.offset (size - tail_block_size),
      moved (size - tail_block_size),
    )
    else (
      left_data,
      memcpy front tail_block_size b.block b.offset (left_data - tail_block_size),
      moved w,
    )
  where
    r : ℕ
    r = b.last_read_tail

    w : ℕ
    w = b.last_write_tail

    left_data : ℕ
    left_data = b.bufsize - r + w

    tail_block_size : ℕ
    tail_block_size = b.bufsize - r

    front : List ℕ
    front = memcpy into 0 b.block (b.offset + r) tail_block_size

    moved : ℕ → ChannelBuf
    moved tail = record b { last_read_tail = u16 tail }

-- `channel_buf_write`: the count and the buffer afterwards. `last_read_tail-1` is an `int`, so at 0
-- it is -1 and equals no tail; a negative head block counts as 0, as the subtraction here does.
unfoldable pub write : ChannelBuf → List ℕ → ℕ → ℕ × ChannelBuf
write b from size =
    if ltb 0 r && r - 1 == w
    then (0, b)
    else if ltb w r
    then (if ltb size (r - 1 - w)
        then (size, stored (memcpy b.block (b.offset + w) from 0 size) (w + size))
        else (r - 1 - w, stored (memcpy b.block (b.offset + w) from 0 (r - 1 - w)) (r - 1)))
    else if ltb size tail_block_size
    then (size, stored (memcpy b.block (b.offset + w) from 0 size) (w + size))
    else if ltb size left_data
    then (
      size,
      stored (memcpy front b.offset from tail_block_size (size - tail_block_size))
          (size - tail_block_size),
    )
    else (
      left_data,
      stored (memcpy front b.offset from tail_block_size head_block_size) head_block_size,
    )
  where
    r : ℕ
    r = b.last_read_tail

    w : ℕ
    w = b.last_write_tail

    tail_block_size : ℕ
    tail_block_size = b.bufsize - w

    head_block_size : ℕ
    head_block_size = r - 1

    left_data : ℕ
    left_data = tail_block_size + head_block_size

    front : List ℕ
    front = memcpy b.block (b.offset + w) from 0 tail_block_size

    stored : List ℕ → ℕ → ChannelBuf
    stored bytes tail = record b { block = bytes; last_write_tail = u16 tail }
