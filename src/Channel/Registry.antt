-- ===== src/Channel/Registry.antt =====
-- The list of registered channels of cubelib/channel/channel.c.
use cube.Prelude.{
  ℕ, ◌<◌, ◌≤◌, ◌≡◌, refl, subst, Bool, true, false, Option, none, some, List, [], ◌∷◌, ℤ, pos,
  arith, is_zero, ltb, ◌==◌, if◌then◌else◌, digest_size,
}
use cube.Strings.{strncmp}
use cube.ChannelBuf.{ChannelBuf}
use cube.Channel.{
  Channel, Created, null, crashed, invalid, made, has_flag, channel_fixmem, channel_shutdown,
  new_channel, channel_create, channel_create_fixmem,
}

-- A record in the list: the address and the name of a channel, `none` for the number -EINVAL.
abbrev pub Entry : Type 0
Entry = Option (ℕ × List ℕ)

-- `channel_list` after `channel_init`; `channel_num`, `state` and `curr` are not used.
pub channel_init : List Entry
channel_init = []

-- What both functions do with the channel that was created at `address`: `node` tells whether
-- there is memory for the list node. The list head is initialised again, so the new node is alone.
unfoldable pub register : List Entry → ℕ → Bool → Created → Created × List Entry
register channels address node null = (null, channels)
register channels address node crashed = (crashed, channels)
register channels address node invalid = if node then (invalid, none ∷ []) else (null, channels)
register channels address node (made c) =
    if node then (made c, some (address, c.name) ∷ []) else (null, channels)

-- `channel_register`, with the memory that `channel_create` gets.
unfoldable pub channel_register :
    List Entry → List ℕ → ℤ → ℕ → Bool → Bool → Bool → Bool → Created × List Entry
unfolding register
channel_register channels name type address allocated read_allocated write_allocated node =
    register channels address node
      (channel_create name type allocated read_allocated write_allocated)

-- `channel_register_fixmem`, for a type that is not negative.
pub channel_register_fixmem :
    List Entry
    → List ℕ
    → ℕ
    → ℤ
    → Option ChannelBuf
    → Option ChannelBuf
    → ℕ
    → Bool
    → Bool
    → Created × List Entry
unfolding register
channel_register_fixmem channels name type size readaddr writeaddr address allocated node =
    if has_flag type channel_fixmem
    then register channels address node
        (channel_create_fixmem name (pos type) size readaddr writeaddr allocated)
    else (invalid, channels)

-- `_channel_comp_name` of a record in the list; the name behind -EINVAL cannot be read.
channel_comp_name : Entry → List ℕ → Option ℤ
channel_comp_name none name = none
channel_comp_name (some (address, n)) name = some (strncmp n name digest_size)

-- `find_elem_with_tag` with this comparison, from the first record on: the list head, which is
-- compared first, has no record and does not match.
find_elem_with_tag : List Entry → List ℕ → Option (Option Entry)
unfolding channel_comp_name
find_elem_with_tag [] name = some none
find_elem_with_tag (e ∷ channels) name =
    let rest = find_elem_with_tag channels name in
    elim (channel_comp_name e name) [
      | none ↦ none
      | some difference ↦ if is_zero difference then some (some e) else rest
    ]

abbrev address_of : Option Entry → Option ℕ
address_of none = none
address_of (some none) = none
address_of (some (some (address, n))) = some address

-- `channel_find`: the address, or none for NULL; no result for a read through -EINVAL.
pub channel_find : List Entry → List ℕ → Option (Option ℕ)
unfolding find_elem_with_tag
channel_find channels name = elim (find_elem_with_tag channels name) [
  | none ↦ none
  | some found ↦ some (address_of found)
]

-- What a search finds after a registration that returned this.
abbrev FindsBy : ℕ → List ℕ → Created × List Entry → Type 0
FindsBy address tag (null, later) = Unit
FindsBy address tag (crashed, later) = Unit
FindsBy address tag (invalid, later) = Unit
FindsBy address tag (made c, later) =
    channel_find later tag
    ≡ some (if is_zero (strncmp c.name tag digest_size) then some address else none)

-- What `find_elem_with_tag` finds in a list of one record, by its comparison.
abbrev lone : Bool → ℕ → List ℕ → Option (Option Entry)
lone b address name = if b then some (some (some (address, name))) else some none

pull :
    (b : Bool) (address : ℕ) (name : List ℕ)
    → (elim (lone b address name) as (λ _. Option (Option ℕ)) [
      | none ↦ none
      | some found ↦ some (address_of found)
    ])
      ≡ some (if b then some address else none)
pull true address name = refl
pull false address name = refl

-- After a call of `channel_register` that made a channel, `channel_find` finds this channel for
-- every tag that agrees with its name in 32 characters and returns NULL for all others, whatever
-- was registered before.
channel_register_forgets :
    (channels later : List Entry) (name tag : List ℕ) (type : ℤ) (address : ℕ)
    (allocated read_allocated write_allocated node : Bool) {c : Channel}
    → channel_register channels name type address allocated read_allocated write_allocated node
      ≡ (made c, later)
    → channel_find later tag
      ≡ some (if is_zero (strncmp c.name tag digest_size) then some address else none)
unfolding channel_register register channel_find find_elem_with_tag channel_comp_name
channel_register_forgets channels later name tag type address a r w node {c} e =
    by_result (channel_create name type a r w) node e
  where
    by_result :
        (o : Created) (node : Bool)
        → register channels address node o ≡ (made c, later)
        → channel_find later tag
          ≡ some (if is_zero (strncmp c.name tag digest_size) then some address else none)
    by_result null node e = cc
    by_result crashed node e = cc
    by_result invalid true e = cc
    by_result invalid false e = cc
    by_result (made d) false e = cc
    by_result (made d) true e =
        subst (FindsBy address tag) e
          (pull (is_zero (strncmp d.name tag digest_size)) address d.name)

-- For a type with CHANNEL_FIXMEM `channel_register` puts the error number into the list as if it
-- were a channel, and the next `channel_find` reads through it.
pub channel_register-invalid :
    (channels : List Entry) (name tag : List ℕ) (type address : ℕ)
    (read_allocated write_allocated : Bool)
    → 0 < type
    → type ≤ channel_shutdown
    → has_flag type channel_fixmem ≡ true
    → let (result, later) =
        channel_register channels name
          (pos type)
          address
          true
          read_allocated
          write_allocated
          true in
      (result ≡ invalid) × (channel_find later tag ≡ none)
unfolding channel_register register channel_find find_elem_with_tag channel_comp_name channel_create
    new_channel
channel_register-invalid channels name tag type address r w h l f =
    let some_type : (type == 0) ≡ false = ground arith in
    let in_range : ltb channel_shutdown type ≡ false = ground arith in
    let e : channel_create name (pos type) true r w ≡ invalid =
      rw (some_type, in_range, channel_create) (rw f refl) in
    rw e (refl, refl)
