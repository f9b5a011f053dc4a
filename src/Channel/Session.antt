-- ===== src/Channel/Session.antt =====
-- A channel is two streams, one from the inner side to the owner and one back.
use cube.Prelude.{
  ℕ, ◌≤◌, ◌≡◌, refl, sym, ap, ◌∙◌, subst, Bool, true, false, Option, none, some, some-injective,
  List, [], ◌++◌, ℤ, pos, negsuc, slice, length, append-nil, append_assoc,
}
use cube.ChannelBuf
use cube.ChannelBuf.{ChannelBuf}
use cube.ChannelBuf.Contents
use cube.ChannelBuf.Contents.{contents}
use cube.ChannelBuf.Write.{Safe}
use cube.ChannelBuf.Stream.{start, put, get, Stream-fifo}
use cube.Channel.{Channel, channel_read, channel_inner_read, channel_write, channel_inner_write}
use cube.Channel.Create.{IsValid, HasBuf, waiting}
use cube.Channel.Transfer.{Reading, Writing, with_read, with_write, transfers_lem}

-- A write of `size` bytes is safe for the buffer, if there is one.
abbrev pub SafeFor : Option ChannelBuf → ℕ → Type 0
SafeFor o size = (b : ChannelBuf) → o ≡ some b → Safe b size

-- From the channel `first` some accepted transfers lead to another one: the bytes that the inner
-- side wrote and the owner read, and those that the owner wrote and the inner side read.
pub data Session (first : Channel) : List ℕ → List ℕ → List ℕ → List ℕ → Channel → Type 0 where
  opened : Session first [] [] [] [] first
  inner_written :
      {up up_got down down_got : List ℕ} {c c' : Channel} (bytes : List ℕ) (size n : ℕ)
      → SafeFor c.read_buf size
      → channel_inner_write c bytes size ≡ some (pos n, c')
      → Session first up up_got down down_got c
      → Session first (up ++ slice bytes 0 n) up_got down down_got c'
  owner_read :
      {up up_got down down_got : List ℕ} {c c' : Channel} (bytes bytes' : List ℕ) (size n : ℕ)
      → size ≤ length bytes
      → channel_read c bytes size ≡ some (pos n, bytes', c')
      → Session first up up_got down down_got c
      → Session first up (up_got ++ slice bytes' 0 n) down down_got c'
  owner_written :
      {up up_got down down_got : List ℕ} {c c' : Channel} (bytes : List ℕ) (size n : ℕ)
      → SafeFor c.write_buf size
      → channel_write c bytes size ≡ some (pos n, c')
      → Session first up up_got down down_got c
      → Session first up up_got (down ++ slice bytes 0 n) down_got c'
  inner_read :
      {up up_got down down_got : List ℕ} {c c' : Channel} (bytes bytes' : List ℕ) (size n : ℕ)
      → size ≤ length bytes
      → channel_inner_read c bytes size ≡ some (pos n, bytes', c')
      → Session first up up_got down down_got c
      → Session first up up_got down (down_got ++ slice bytes' 0 n) c'

-- What a transfer that was accepted did to its buffer.
record Took (buf : Option ChannelBuf) (with_buf : ChannelBuf → Channel) (new : List ℕ)
    (c' : Channel) : Type 0 where
  next : ChannelBuf
  valid : Contents.IsValid next
  after : c' ≡ with_buf next
  bytes : waiting buf ≡ new ++ contents next

record Gave (buf : Option ChannelBuf) (with_buf : ChannelBuf → Channel) (new : List ℕ)
    (c' : Channel) : Type 0 where
  next : ChannelBuf
  valid : Contents.IsValid next
  after : c' ≡ with_buf next
  bytes : waiting buf ++ new ≡ contents next

abbrev count : ℤ → ℕ
count (pos n) = n
count (negsuc n) = 0

-- What the result says, whatever it is.
abbrev TookBy : Option ChannelBuf → (ChannelBuf → Channel) → Option (ℤ × List ℕ × Channel) → Type 0
TookBy buf with_buf none = Unit
TookBy buf with_buf (some (n, bytes, c)) = Took buf with_buf (slice bytes 0 (count n)) c

abbrev GaveBy : Option ChannelBuf → (ChannelBuf → Channel) → List ℕ → Option (ℤ × Channel) → Type 0
GaveBy buf with_buf bytes none = Unit
GaveBy buf with_buf bytes (some (n, c)) = Gave buf with_buf (slice bytes 0 (count n)) c

IsValid-buf :
    {buf : Option ChannelBuf} {b : ChannelBuf} → HasBuf buf → buf ≡ some b → Contents.IsValid b
IsValid-buf {buf} {b} (b₀, e, v) eb = subst Contents.IsValid (some-injective b₀ b (sym e ∙ eb)) v

Reading-Took :
    (f : Bool) (buf : Option ChannelBuf) (with_buf : ChannelBuf → Channel) (c c' : Channel)
    (bytes bytes' : List ℕ) (size n : ℕ) {out : Option (ℤ × List ℕ × Channel)}
    → (f ≡ true → HasBuf buf)
    → size ≤ length bytes
    → Reading f buf with_buf c bytes size out
    → out ≡ some (pos n, bytes', c')
    → Took buf with_buf (slice bytes' 0 n) c'
Reading-Took false buf with_buf c c' bytes bytes' size n v h r e = cc
Reading-Took true buf with_buf c c' bytes bytes' size n v h (b, eb, r) e =
    let (valid, fifo) = Stream-fifo (IsValid-buf (v refl) eb) (get bytes size h start) in
    subst (TookBy buf with_buf) (sym r ∙ e) (record {
      next = (ChannelBuf.read b bytes size).2;
      valid = valid;
      after = refl;
      bytes = ap waiting eb ∙ sym (append-nil (contents b)) ∙ fifo;
    })

Writing-Gave :
    (f : Bool) (buf : Option ChannelBuf) (with_buf : ChannelBuf → Channel) (c c' : Channel)
    (bytes : List ℕ) (size n : ℕ) {out : Option (ℤ × Channel)}
    → (f ≡ true → HasBuf buf)
    → SafeFor buf size
    → Writing f buf with_buf c bytes size out
    → out ≡ some (pos n, c')
    → Gave buf with_buf (slice bytes 0 n) c'
Writing-Gave false buf with_buf c c' bytes size n v h r e = cc
Writing-Gave true buf with_buf c c' bytes size n v h (b, eb, r) e =
    let (valid, fifo) = Stream-fifo (IsValid-buf (v refl) eb) (put bytes size (h b eb) start) in
    subst (GaveBy buf with_buf bytes) (sym r ∙ e) (record {
      next = (ChannelBuf.write b bytes size).1;
      valid = valid;
      after = refl;
      bytes = ap (λ w. w ++ slice bytes 0 (ChannelBuf.write b bytes size).0) (ap waiting eb) ∙ fifo;
    })

sent_more :
    (first sent got now new later : List ℕ)
    → first ++ sent ≡ got ++ now
    → now ++ new ≡ later
    → first ++ (sent ++ new) ≡ got ++ later
sent_more first sent got now new later e f =
    sym (append_assoc first sent new)
    ∙ ap (λ l. l ++ new) e
    ∙ append_assoc got now new
    ∙ ap (λ l. got ++ l) f

got_more :
    (all got now new later : List ℕ)
    → all ≡ got ++ now
    → now ≡ new ++ later
    → all ≡ (got ++ new) ++ later
got_more all got now new later e f = e ∙ ap (λ l. got ++ l) f ∙ sym (append_assoc got new later)

-- One of the buffers is replaced by a valid one.
with_read-IsValid :
    (c : Channel) (b : ChannelBuf) → IsValid c → Contents.IsValid b → IsValid (with_read c b)
with_read-IsValid c b v vb = record { reads = λ _. (b, refl, vb); writes = v.writes }

with_write-IsValid :
    (c : Channel) (b : ChannelBuf) → IsValid c → Contents.IsValid b → IsValid (with_write c b)
with_write-IsValid c b v vb = record { reads = v.reads; writes = λ _. (b, refl, vb) }

-- In every session of a valid channel with safe writes what waited for the owner at first and what
-- the inner side wrote is what the owner read followed by what still waits for it, and likewise in
-- the other direction; the channel stays valid.
pub Session-streams :
    {first c : Channel} {up up_got down down_got : List ℕ}
    → IsValid first
    → Session first up up_got down down_got c
    → IsValid c
      × (waiting first.read_buf ++ up ≡ up_got ++ waiting c.read_buf)
      × (waiting first.write_buf ++ down ≡ down_got ++ waiting c.write_buf)
Session-streams {first} v opened =
    (v, append-nil (waiting first.read_buf), append-nil (waiting first.write_buf))
Session-streams {first} v
      (inner_written {up = up} {up_got = got} {c = c} {c' = c'} bytes size n safe e s) =
    let (vc, in_up, in_down) = Session-streams v s in
    let g =
      Writing-Gave _ c.read_buf (with_read c) c c' bytes size n vc.reads safe
        (transfers_lem c bytes size vc).3 e in
    rw g.after
      (with_read-IsValid c g.next vc g.valid, sent_more _ up got _ _ _ in_up g.bytes, in_down)
Session-streams {first} v
      (owner_read {up = up} {up_got = got} {c = c} {c' = c'} bytes bytes' size n h e s) =
    let (vc, in_up, in_down) = Session-streams v s in
    let g =
      Reading-Took _ c.read_buf (with_read c) c c' bytes bytes' size n vc.reads h
        (transfers_lem c bytes size vc).0 e in
    rw g.after (with_read-IsValid c g.next vc g.valid, got_more _ got _ _ _ in_up g.bytes, in_down)
Session-streams {first} v
      (owner_written {down = down} {down_got = got} {c = c} {c' = c'} bytes size n safe e s) =
    let (vc, in_up, in_down) = Session-streams v s in
    let g =
      Writing-Gave _ c.write_buf (with_write c) c c' bytes size n vc.writes safe
        (transfers_lem c bytes size vc).2 e in
    rw g.after
      (with_write-IsValid c g.next vc g.valid, in_up, sent_more _ down got _ _ _ in_down g.bytes)
Session-streams {first} v
      (inner_read {down = down} {down_got = got} {c = c} {c' = c'} bytes bytes' size n h e s) =
    let (vc, in_up, in_down) = Session-streams v s in
    let g =
      Reading-Took _ c.write_buf (with_write c) c c' bytes bytes' size n vc.writes h
        (transfers_lem c bytes size vc).1 e in
    rw g.after (with_write-IsValid c g.next vc g.valid, in_up, got_more _ got _ _ _ in_down g.bytes)
