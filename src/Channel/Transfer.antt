-- ===== src/Channel/Transfer.antt =====
-- The four transfers of a channel, as calls on one of its buffers.
use cube.Prelude.{
  ℕ, ◌≡◌, refl, Bool, true, false, Option, none, some, List, ℤ, pos, einval, if◌then◌else◌,
}
use cube.ChannelBuf
use cube.ChannelBuf.{ChannelBuf}
use cube.Channel.{
  Channel, has_flag, channel_read_flag, channel_write_flag, take_from, put_into, channel_read,
  channel_inner_read, channel_write, channel_inner_write,
}
use cube.Channel.Create.{IsValid, HasBuf}

-- A read that gave `out`: with the right the buffer is read, without it nothing happens.
abbrev pub Reading :
    Bool
    → Option ChannelBuf
    → (ChannelBuf → Channel)
    → Channel
    → List ℕ
    → ℕ
    → Option (ℤ × List ℕ × Channel)
    → Type 0
Reading false buf with_buf c bytes size out = out ≡ some (einval, bytes, c)
Reading true buf with_buf c bytes size out =
    (b : ChannelBuf) × (buf ≡ some b)
    × (let (n, bytes', b') = ChannelBuf.read b bytes size in
        out ≡ some (pos n, bytes', with_buf b'))

abbrev pub Writing :
    Bool
    → Option ChannelBuf
    → (ChannelBuf → Channel)
    → Channel
    → List ℕ
    → ℕ
    → Option (ℤ × Channel)
    → Type 0
Writing false buf with_buf c bytes size out = out ≡ some (einval, c)
Writing true buf with_buf c bytes size out =
    (b : ChannelBuf) × (buf ≡ some b)
    × (let (n, b') = ChannelBuf.write b bytes size in out ≡ some (pos n, with_buf b'))

-- `read_buf` is replaced, and `write_buf`.
abbrev pub with_read : Channel → ChannelBuf → Channel
with_read c b = record c { read_buf = some b }

abbrev pub with_write : Channel → ChannelBuf → Channel
with_write c b = record c { write_buf = some b }

-- On a valid channel none of the four transfers goes through NULL: with the right for it
-- `channel_read` reads the read buffer, `channel_inner_read` the write buffer, `channel_write`
-- writes the write buffer and `channel_inner_write` the read buffer; without it they return EINVAL
-- and change nothing. The rights of the inner calls are those of the other side.
pub transfers_lem :
    (c : Channel) (bytes : List ℕ) (size : ℕ)
    → IsValid c
    → let may_read = has_flag c.type channel_read_flag in
      let may_write = has_flag c.type channel_write_flag in
      Reading may_read c.read_buf (with_read c) c bytes size (channel_read c bytes size)
      × Reading may_write c.write_buf (with_write c) c bytes size (channel_inner_read c bytes size)
      × Writing may_write c.write_buf (with_write c) c bytes size (channel_write c bytes size)
      × Writing may_read c.read_buf (with_read c) c bytes size (channel_inner_write c bytes size)
unfolding channel_read channel_inner_read channel_write channel_inner_write take_from put_into
transfers_lem c bytes size v = (
  reading (has_flag c.type channel_read_flag) c.read_buf (with_read c) v.reads,
  reading (has_flag c.type channel_write_flag) c.write_buf (with_write c) v.writes,
  writing (has_flag c.type channel_write_flag) c.write_buf (with_write c) v.writes,
  writing (has_flag c.type channel_read_flag) c.read_buf (with_read c) v.reads,
)
  where
    reading :
        (f : Bool) (buf : Option ChannelBuf) (with_buf : ChannelBuf → Channel)
        → (f ≡ true → HasBuf buf)
        → Reading f buf with_buf c bytes size (
            if f
            then elim (take_from buf bytes size) [
              | none ↦ none
              | some (n, bytes', b) ↦ some (n, bytes', with_buf b)
            ]
            else some (einval, bytes, c))
    reading false buf with_buf h = refl
    reading true buf with_buf h = let (b, e, v) = h refl in (b, e, rw e refl)

    writing :
        (f : Bool) (buf : Option ChannelBuf) (with_buf : ChannelBuf → Channel)
        → (f ≡ true → HasBuf buf)
        → Writing f buf with_buf c bytes size (
            if f
            then elim (put_into buf bytes size) [ none ↦ none | some (n, b) ↦ some (n, with_buf b) ]
            else some (einval, c))
    writing false buf with_buf h = refl
    writing true buf with_buf h = let (b, e, v) = h refl in (b, e, rw e refl)
