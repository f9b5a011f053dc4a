-- ===== src/Channel/Tests.antt =====
-- Channels in use, and the theorems at them.
use cube.Prelude.{
  ℕ, ◌≡◌, ◌<◌, inl, subst, some-injective, memcpy, refl, List, [], ◌∷◌, ◌++◌, true, none, some, pos,
  arith, digest_size, replicate, slice,
}
use cube.Strings.{strncpy}
use cube.ChannelBuf
use cube.ChannelBuf.{ChannelBuf}
use cube.Channel.{
  Channel, put_into, take_from, made, has_flag, channel_create, channel_read, channel_inner_write,
  new_channel, add_bufs, add_write_buf,
}
use cube.Channel.Create.{IsValid, New, waiting, channel_create-New}
use cube.Channel.Transfer.{with_read}
use cube.Channel.Session.{opened, inner_written, owner_read, Session-streams}
use cube.Channel.Registry.{register, channel_register}

-- A ring of 5 bytes with two in front of the upper end and one behind it.
abbrev ring : ChannelBuf
ring = record {
  bufsize = 5;
  offset = 8;
  last_read_tail = 3;
  last_write_tail = 1;
  block = 0 ∷ 0 ∷ 0 ∷ 0 ∷ 0 ∷ 0 ∷ 0 ∷ 0 ∷ 43 ∷ 0 ∷ 0 ∷ 41 ∷ 42 ∷ [];
}

-- A channel for reading.
abbrev pipe : Channel
pipe = record { name = replicate 32 0; type = 1; state = 1; read_buf = some ring; write_buf = none }

safe_ring : {b : ChannelBuf} → some ring ≡ some b → 0 < b.last_read_tail
safe_ring {b} e = subst (λ c. 0 < c.last_read_tail) (some-injective ring b e) (omega arith)

pipe-IsValid : IsValid pipe
unfolding has_flag
pipe-IsValid = record {
  reads = λ _. (
    ring,
    refl,
    record {
      size = omega arith;
      small = omega arith;
      room = omega arith;
      read_in = omega arith;
      write_in = omega arith;
    },
  );
  writes = λ e. cc;
}

abbrev fuller : ChannelBuf
fuller = record ring {
  last_write_tail = 2;
  block = 0 ∷ 0 ∷ 0 ∷ 0 ∷ 0 ∷ 0 ∷ 0 ∷ 0 ∷ 43 ∷ 7 ∷ 0 ∷ 41 ∷ 42 ∷ [];
}

written : channel_inner_write pipe (7 ∷ []) 1 ≡ some (pos 1, with_read pipe fuller)
unfolding channel_inner_write put_into has_flag ChannelBuf.write memcpy
written = refl

read_back :
    channel_read (with_read pipe fuller) (0 ∷ 0 ∷ 0 ∷ []) 3
    ≡ some (pos 3, 41 ∷ 42 ∷ 43 ∷ [], with_read pipe (record fuller { last_read_tail = 1 }))
unfolding channel_read take_from has_flag ChannelBuf.read memcpy
read_back = refl

Session-streams_example :
    IsValid (with_read pipe (record fuller { last_read_tail = 1 }))
    × (waiting pipe.read_buf ++ ([] ++ slice (7 ∷ []) 0 1)
        ≡ ([] ++ slice (41 ∷ 42 ∷ 43 ∷ []) 0 3)
          ++ waiting (with_read pipe (record fuller { last_read_tail = 1 })).read_buf)
    × (waiting pipe.write_buf ++ [] ≡ [] ++ waiting pipe.write_buf)
Session-streams_example = Session-streams pipe-IsValid (
    owner_read (0 ∷ 0 ∷ 0 ∷ []) (41 ∷ 42 ∷ 43 ∷ []) 3 3 (omega arith) read_back
      (inner_written (7 ∷ []) 1 1 (λ b e. inl (safe_ring e)) written opened))

abbrev a_name : List ℕ
a_name = b'a' ∷ 0 ∷ []

abbrev b_name : List ℕ
b_name = b'b' ∷ 0 ∷ []

abbrev named_a : Channel
named_a = record {
  name = strncpy (replicate digest_size 0) a_name digest_size;
  type = 16;
  state = 1;
  read_buf = none;
  write_buf = none;
}

made_a : channel_create a_name (pos 16) true true true ≡ made named_a
unfolding channel_create new_channel add_bufs add_write_buf has_flag
made_a = refl

channel_create-New_example : New a_name 16 named_a
channel_create-New_example = channel_create-New a_name 16 true true true made_a

registered_a :
    channel_register (some (5, b_name) ∷ []) a_name (pos 16) 6 true true true true
    ≡ (made named_a, some (6, named_a.name) ∷ [])
unfolding channel_register register channel_create new_channel add_bufs add_write_buf has_flag
registered_a = refl
