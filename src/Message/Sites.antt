-- ===== src/Message/Sites.antt =====
-- The making of messages and of their records: the first part of cubelib/message/message.c. Each
-- allocation is a `Bool`, whether there was memory.
use cube.Prelude.{
  ℕ, zero, suc, ◌+◌, Bool, true, false, ◌==◌, ltb, if◌then◌else◌, Option, none, some, List, [], ◌∷◌,
  ◌++◌, ◌||◌, ℤ, pos, einval, is_zero, length, get_or, set, take, replicate, memcpy,
}
use cube.MessageQueue.{enomem, is_negative}
use cube.Message.{
  msg_box_init, msg_box_add, MessageHead, MessageBox, Site, null_site, null, StructOps, template_of,
}

-- A `MSG_HEAD` of zeros, with its tag and its version.
abbrev zeros : List ℕ
zeros = replicate 32 0

unfoldable pub init_head : MessageHead
init_head = record {
  tag = b'M' ∷ b'E' ∷ b'S' ∷ b'G' ∷ [];
  version = 0x00010001;
  sender_uuid = zeros;
  receiver_uuid = zeros;
  route = zeros;
  flow = 0;
  state = 0;
  flag = 0;
  ljump = 0;
  rjump = 0;
  record_type = 0;
  record_subtype = 0;
  record_num = 0;
  record_size = 0;
  expand_num = 0;
  expand_size = 0;
  nonce = zeros;
}

-- `message_set_route` with the text of `route`: the characters and the terminator, or the first 32.
pub message_set_route : {S : Type 0} → MessageBox S → List ℕ → ℤ × MessageBox S
message_set_route m route =
    let n : ℕ = if ltb (length route) 32 then length route + 1 else 32 in
    (pos 0, record m { head = record (m.head) { route = memcpy m.head.route 0 route 0 n } })

-- `__message_alloc_record_site` and `__message_alloc_expand_site` for `n` sites.
unfoldable pub alloc_sites : {A : Type 0} → Bool → ℕ → List (Site A) → ℤ × List (Site A)
alloc_sites memory zero sites = (pos 0, sites)
alloc_sites false (suc n) sites = (enomem, [])
alloc_sites true (suc n) sites = (pos 0, replicate (suc n) null_site)

unfoldable pub is_free : {A : Type 0} → Site A → Bool
is_free s = elim s.struct [ some v ↦ false | none ↦ elim s.bytes [ some b ↦ false | none ↦ true ] ]

-- The search of `message_add_record` and `message_add_record_blob` for a free site among the `n`
-- sites from `i` on: its index or the number of the sites, and `none` for an access outside of
-- the arrays.
unfoldable pub free_site : {A : Type 0} → ℕ → ℕ → List (Site A) → Option ℕ
unfolding is_free
free_site i zero sites = some i
free_site i (suc n) [] = none
free_site i (suc n) (s ∷ sites) =
    let rest = free_site (i + 1) n sites in if is_free s then some i else rest

-- Whether there is memory for the new sites and for the record.
pub record Memory : Type 0 where
  pub sites : Bool
  pub copy : Bool

module _ {S : Type 0} where
  -- `message_init`.
  unfoldable pub message_init : Bool → Option (MessageBox S)
  unfolding init_head
  message_init false = none
  message_init true = some (record {
    head = init_head;
    record_template = none;
    box_state = msg_box_init;
    head_size = pos 0;
    records = [];
    expands = [];
    blob = null;
    current_offset = 0;
    policy = 0;
    active_msg = 0;
  })

  -- `message_record_init`: the template, and the sites of the records that the head announces.
  unfoldable pub message_record_init : StructOps S → Bool → MessageBox S → ℤ × MessageBox S
  unfolding alloc_sites
  message_record_init ops memory m =
      if ops.has_template (template_of m)
      then (
        pos 0,
        record m {
          record_template = some (template_of m);
          records = (alloc_sites memory m.head.record_num m.records).1;
        },
      )
      else (einval, record m { record_template = none })

  -- The nonce of `message_create`: that of the message that is active, or the random one with its
  -- status.
  unfoldable pub with_nonce :
      MessageBox S → Option (ℕ × MessageHead) → ℤ × List ℕ → Option (MessageBox S)
  with_nonce m (some (address, head)) random =
      some (record m { active_msg = address; head = record (m.head) { nonce = head.nonce } })
  with_nonce m none (status, nonce) =
      if is_negative status || is_zero status
      then none
      else some (record m { active_msg = 0; head = record (m.head) { nonce = nonce } })

  -- The rest of `message_create`, with the box of `message_init`.
  unfoldable pub created :
      StructOps S
      → ℕ
      → ℕ
      → Option (ℕ × MessageHead)
      → ℤ × List ℕ
      → MessageBox S
      → Option (MessageBox S)
  unfolding message_record_init with_nonce
  created ops type subtype active random m =
      let typed : MessageBox S = record m {
        box_state = msg_box_init;
        head = record (m.head) { record_type = type; record_subtype = subtype; state = 1 };
      } in
      let (status, ready) = message_record_init ops true typed in
      if is_negative status then none else with_nonce ready active random

  -- `message_create`; `none` is NULL.
  unfoldable pub message_create :
      StructOps S → Bool → ℕ → ℕ → Option (ℕ × MessageHead) → ℤ × List ℕ → Option (MessageBox S)
  unfolding message_init created
  message_create ops memory type subtype active random = elim (message_init memory) [
    | none ↦ none
    | some m ↦ created ops type subtype active random m
  ]

  -- `__message_add_record_site`: the new arrays have the old sites and `increment` null ones.
  -- Without memory the arrays are gone, and the number is counted up all the same.
  unfoldable pub add_record_site : Bool → MessageBox S → ℕ → ℤ × MessageBox S
  add_record_site memory m increment =
      let n : ℕ = m.head.record_num in
      let head : MessageHead = record (m.head) { record_num = n + increment } in
      if memory
      then (
        pos 0,
        record m { head = head; records = take n m.records ++ replicate increment null_site },
      )
      else (enomem, record m { head = head; records = [] })

  -- The site for a new record, and the status: that of the new site, or what `ret` held before.
  unfoldable pub room_for_record : Bool → ℤ → MessageBox S → ℕ → ℤ × MessageBox S
  unfolding add_record_site
  room_for_record memory ret m curr_site =
      if curr_site == m.head.record_num then add_record_site memory m 1 else (ret, m)

  -- The rest of `message_add_record`, at a site.
  unfoldable pub put_record_struct : StructOps S → Bool → MessageBox S → ℕ → S → ℤ × MessageBox S
  put_record_struct ops memory m curr_site value = elim m.record_template [
    | none ↦ (einval, m)
    | some template ↦
        if memory
        then (let (status, copy) = ops.struct_clone template value in
            let site : Site S = get_or m.records curr_site null_site in
            let filled : MessageBox S = record m {
              records = set m.records curr_site (record site { struct = some copy });
            } in
            if is_negative status
            then (status, filled)
            else (status, record filled { box_state = msg_box_add }))
        else (enomem, m)
  ]

  -- `message_add_record` behind its search.
  unfoldable pub record_at :
      StructOps S → Memory → ℤ → MessageBox S → S → Option ℕ → Option (ℤ × MessageBox S)
  unfolding room_for_record put_record_struct
  record_at ops memory ret m value none = none
  record_at ops memory ret m value (some curr_site) = some (
      let (status, ready) = room_for_record memory.sites ret m curr_site in
      if is_negative status
      then (status, ready)
      else put_record_struct ops memory.copy ready curr_site value)

  -- `message_add_record`, with what the variable `ret` holds at first.
  unfoldable pub message_add_record :
      StructOps S → Memory → ℤ → MessageBox S → Option S → Option (ℤ × MessageBox S)
  unfolding free_site record_at
  message_add_record ops memory ret m none = some (einval, m)
  message_add_record ops memory ret m (some value) =
      record_at ops memory ret m value (free_site 0 m.head.record_num m.records)

  -- The rest of `message_add_record_blob`: the store at the index `record_no`, outside of the
  -- arrays where no site was added.
  unfoldable pub put_record_blob :
      Bool → ℤ → MessageBox S → ℕ → ℕ → List ℕ → Option (ℤ × MessageBox S)
  put_record_blob false ret m record_no size bytes = some (enomem, m)
  put_record_blob true ret m record_no size bytes =
      let site : Site S = get_or m.records record_no null_site in
      if ltb record_no (length m.records)
      then some (
        ret,
        record m {
          records = set m.records record_no (record site { bytes = some bytes; size = size });
          head = record (m.head) { record_size = m.head.record_size + size };
          box_state = msg_box_add;
        },
      )
      else none

  -- `message_add_record_blob` behind its search.
  unfoldable pub record_blob_at :
      Memory → ℤ → MessageBox S → ℕ → List ℕ → Option ℕ → Option (ℤ × MessageBox S)
  unfolding room_for_record put_record_blob
  record_blob_at memory ret m size bytes none = none
  record_blob_at memory ret m size bytes (some curr_site) =
      let (status, ready) = room_for_record memory.sites ret m curr_site in
      if is_negative status
      then some (status, ready)
      else put_record_blob memory.copy status ready m.head.record_num size bytes

  -- `message_add_record_blob`, for the first `size` bytes of `blob`.
  unfoldable pub message_add_record_blob :
      Memory → ℤ → MessageBox S → ℕ → Option (List ℕ) → Option (ℤ × MessageBox S)
  unfolding free_site record_blob_at
  message_add_record_blob memory ret m size none = some (einval, m)
  message_add_record_blob memory ret m size (some blob) =
      record_blob_at memory ret m size (take size blob) (free_site 0 m.head.record_num m.records)
