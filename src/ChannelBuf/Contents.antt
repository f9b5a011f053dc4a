-- ===== src/ChannelBuf/Contents.antt =====
-- The bytes that a channel buffer holds, oldest first, and the invariant of its header.
use cube.Prelude.{
  ℕ, ◌+◌, ◌-◌, ◌≤◌, ◌<◌, ◌≡◌, List, ◌++◌, true, some, pos, arith, leb, if◌then◌else◌, length, slice,
  length-slice, length-append, length-replicate,
}
use cube.ChannelBuf.{ChannelBuf, create}

pub record IsValid (b : ChannelBuf) : Type 0 where
  pub size : 0 < b.bufsize
  pub small : b.bufsize ≤ 32767
  pub room : b.offset + b.bufsize ≤ length b.block
  pub read_in : b.last_read_tail < b.bufsize
  pub write_in : b.last_write_tail < b.bufsize

-- How many bytes wait to be read.
abbrev pub used : ChannelBuf → ℕ
used b =
    if leb b.last_read_tail b.last_write_tail
    then b.last_write_tail - b.last_read_tail
    else b.bufsize - b.last_read_tail + b.last_write_tail

abbrev pub contents : ChannelBuf → List ℕ
contents b =
    if leb b.last_read_tail b.last_write_tail
    then slice b.block (b.offset + b.last_read_tail) (b.last_write_tail - b.last_read_tail)
    else slice b.block (b.offset + b.last_read_tail) (b.bufsize - b.last_read_tail)
      ++ slice b.block b.offset b.last_write_tail

pub length-contents : (b : ChannelBuf) → length (contents b) ≡ used b
length-contents b = ground (
  arith,
  length-slice b.block (b.offset + r) (w - r),
  length-slice b.block (b.offset + r) (b.bufsize - r),
  length-slice b.block b.offset w,
  length-append (slice b.block (b.offset + r) (b.bufsize - r)) (slice b.block b.offset w),
)
  where
    open b use {last_read_tail as r, last_write_tail as w}

-- A buffer of a positive size that `channel_buf_create` returns is valid and empty.
pub create-IsValid :
    (size : ℕ) {b : ChannelBuf}
    → 0 < size
    → create (pos size) true ≡ some b
    → IsValid b × (used b ≡ 0) × (b.bufsize ≡ size)
unfolding create
create-IsValid size h e = ground (arith, length-replicate {A = ℕ} (size + 8) 0)
