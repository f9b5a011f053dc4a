-- ===== src/Channel/Create.antt =====
-- New channels are valid and empty.
use cube.Prelude.{
  ◌+◌, ℕ, ◌≤◌, ◌<◌, ◌≡◌, refl, ap, ◌∙◌, subst, Bool, true, false, Option, none, some, List, [], ◌∷◌,
  pos, ltb, ◌==◌, arith, length, if◌then◌else◌, replicate, length-replicate, digest_size,
}
use cube.Strings.{strncmp, strncpy}
use cube.Strings.Bounded.{strncpy_lem}
use cube.ChannelBuf
use cube.ChannelBuf.{ChannelBuf, header_size}
use cube.ChannelBuf.Contents
use cube.ChannelBuf.Contents.{contents, create-IsValid, length-contents}
use cube.Channel.{
  Channel, Created, null, crashed, invalid, made, has_flag, channel_read_flag, channel_write_flag,
  channel_fixmem, channel_shutdown, channel_buf_size, add_write_buf, add_bufs, new_channel,
  channel_create, channel_init_state,
}

-- A buffer that is there and valid.
abbrev pub HasBuf : Option ChannelBuf → Type 0
HasBuf o = (b : ChannelBuf) × (o ≡ some b) × Contents.IsValid b

-- Each direction that the type allows has a valid buffer.
pub record IsValid (c : Channel) : Type 0 where
  pub reads : has_flag c.type channel_read_flag ≡ true → HasBuf c.read_buf
  pub writes : has_flag c.type channel_write_flag ≡ true → HasBuf c.write_buf

-- What waits in a buffer, if there is one.
abbrev pub waiting : Option ChannelBuf → List ℕ
waiting none = []
waiting (some b) = contents b

-- A new channel of this name and type.
pub record New (name : List ℕ) (type : ℕ) (c : Channel) : Type 0 where
  pub valid : IsValid c
  pub no_input : waiting c.read_buf ≡ []
  pub no_output : waiting c.write_buf ≡ []
  pub typed : c.type ≡ type
  pub named : strncmp c.name name digest_size ≡ pos 0

-- Where a buffer is given, it is valid and empty.
abbrev Good : Option ChannelBuf → Type 0
Good o = (b : ChannelBuf) → o ≡ some b → Contents.IsValid b × (contents b ≡ [])

empty_list : (xs : List ℕ) → length xs ≡ 0 → xs ≡ []
empty_list [] e = refl
empty_list (x ∷ xs) e = absurd (omega arith)

create-Good : (allocated : Bool) → Good (ChannelBuf.create (pos channel_buf_size) allocated)
unfolding ChannelBuf.create
create-Good true b e =
    let (v, u, s) = create-IsValid channel_buf_size (omega arith) e in
    (v, empty_list (contents b) (length-contents b ∙ u))
create-Good false b e = cc

abbrev unmade : Channel → Created → Channel
unmade c null = c
unmade c crashed = c
unmade c invalid = c
unmade c (made d) = d

module _ (name : List ℕ) (type : ℕ) where
  abbrev blank : Channel
  blank = record {
    name = strncpy (replicate digest_size 0) name digest_size;
    type = type;
    state = channel_init_state;
    read_buf = none;
    write_buf = none;
  }

  named_blank : strncmp blank.name name digest_size ≡ pos 0
  named_blank =
      (strncpy_lem (replicate digest_size 0) name digest_size
        (omega (arith, length-replicate {A = ℕ} digest_size 0))).0

  -- The second half of `add_bufs`, with `f` for the test of the flag.
  add_write-New :
      (rb o : Option ChannelBuf) (f : Bool) {c : Channel}
      → (has_flag type channel_read_flag ≡ true → HasBuf rb)
      → waiting rb ≡ []
      → Good o
      → has_flag type channel_write_flag ≡ f
      → (if f
          then elim o [
            | none ↦ null
            | some b ↦ made (record blank { read_buf = rb; write_buf = some b })
          ]
          else made (record blank { read_buf = rb }))
        ≡ made c
      → New name type c
  add_write-New rb none true v w g ef e = cc
  add_write-New rb (some b) true {c} v w g ef e = subst (New name type) (ap (unmade c) e) (record {
    valid = record { reads = v; writes = λ _. (b, refl, (g b refl).0) };
    no_input = w;
    no_output = (g b refl).1;
    typed = refl;
    named = named_blank;
  })
  add_write-New rb o false {c} v w g ef e = subst (New name type) (ap (unmade c) e) (record {
    valid = record { reads = v; writes = λ t. cc };
    no_input = w;
    no_output = refl;
    typed = refl;
    named = named_blank;
  })

  add_bufs-New :
      (for_read for_write : Option ChannelBuf) (f : Bool) {c : Channel}
      → Good for_read
      → Good for_write
      → has_flag type channel_read_flag ≡ f
      → (if f
          then elim for_read [
            | none ↦ null
            | some b ↦ add_write_buf (record blank { read_buf = some b }) for_write
          ]
          else add_write_buf blank for_write)
        ≡ made c
      → New name type c
  unfolding add_write_buf
  add_bufs-New none for_write true gr gw ef e = cc
  add_bufs-New (some b) for_write true gr gw ef e =
      add_write-New (some b) for_write _ (λ _. (b, refl, (gr b refl).0)) (gr b refl).1 gw refl e
  add_bufs-New for_read for_write false gr gw ef e =
      add_write-New none for_write _ (λ t. cc) refl gw refl e

  fixmem-New :
      (fixmem : Bool) (for_read for_write : Option ChannelBuf) {c : Channel}
      → Good for_read
      → Good for_write
      → (if fixmem then invalid else add_bufs blank for_read for_write) ≡ made c
      → New name type c
  unfolding add_bufs
  fixmem-New true o p gr gw e = cc
  fixmem-New false o p gr gw e = add_bufs-New o p _ gr gw refl e

  -- The guards of `channel_create`, with the values of its tests.
  guarded-New :
      (zero_type large allocated : Bool) (for_read for_write : Option ChannelBuf) {c : Channel}
      → Good for_read
      → Good for_write
      → (elim (if zero_type
          then some none
          else if large
          then some none
          else if allocated
          then some (some blank)
          else none) [
            | none ↦ crashed
            | some none ↦ null
            | some (some b) ↦
                if has_flag b.type channel_fixmem then invalid else add_bufs b for_read for_write
          ])
        ≡ made c
      → New name type c
  guarded-New true large allocated o p gr gw e = cc
  guarded-New false true allocated o p gr gw e = cc
  guarded-New false false false o p gr gw e = cc
  guarded-New false false true o p gr gw e = fixmem-New _ o p gr gw e

-- A channel that `channel_create` returns has a valid, empty buffer for each direction that its
-- type allows, and the type and the name that were asked for.
pub channel_create-New :
    (name : List ℕ) (type : ℕ) (allocated read_allocated write_allocated : Bool) {c : Channel}
    → channel_create name (pos type) allocated read_allocated write_allocated ≡ made c
    → New name type c
unfolding channel_create new_channel
channel_create-New name type allocated ra wa e =
    guarded-New name type (type == 0) (ltb channel_shutdown type) allocated _ _ (create-Good ra)
      (create-Good wa) e

add_bufs-made :
    (b : Channel) (r w : ChannelBuf) → (c : Channel) × (add_bufs b (some r) (some w) ≡ made c)
unfolding add_bufs add_write_buf
add_bufs-made b r w =
    by_flags (has_flag b.type channel_read_flag) (has_flag b.type channel_write_flag)
  where
    by_flags :
        (f g : Bool)
        → (c : Channel) × ((if f
              then (if g
                  then made (record b { read_buf = some r; write_buf = some w })
                  else made (record b { read_buf = some r }))
              else if g
              then made (record b { write_buf = some w })
              else made b)
            ≡ made c)
    by_flags true true = (record b { read_buf = some r; write_buf = some w }, refl)
    by_flags true false = (record b { read_buf = some r }, refl)
    by_flags false true = (record b { write_buf = some w }, refl)
    by_flags false false = (b, refl)

abbrev fresh_buf : ChannelBuf
fresh_buf = record {
  bufsize = channel_buf_size;
  offset = header_size;
  last_read_tail = 0;
  last_write_tail = 0;
  block = replicate (channel_buf_size + header_size) 0;
}

-- With enough memory `channel_create` makes a channel of each type up to CHANNEL_SHUTDOWN without
-- the flag CHANNEL_FIXMEM.
pub channel_create_succeeds :
    (name : List ℕ) (type : ℕ)
    → 0 < type
    → type ≤ channel_shutdown
    → has_flag type channel_fixmem ≡ false
    → (c : Channel) × (channel_create name (pos type) true true true ≡ made c)
unfolding channel_create new_channel ChannelBuf.create
channel_create_succeeds name type h l f =
    let some_type : (type == 0) ≡ false = ground arith in
    let in_range : ltb channel_shutdown type ≡ false = ground arith in
    let (c, e) = add_bufs-made (blank name type) fresh_buf fresh_buf in
    (c, rw (some_type, in_range, channel_create) (rw f refl) ∙ e)
