-- ===== src/Message/Expands.antt =====
-- The expands of a message: what cubelib/message/message.c adds, finds, replaces and removes.
pub mod Found
pub mod Added
use cube.Prelude.{
  ℕ, zero, suc, ◌+◌, ◌-◌, ◌^◌, Bool, true, false, ◌==◌, ◌&&◌, ltb, if◌then◌else◌, Option, none,
  some, List, [], ◌∷◌, ◌++◌, ℤ, pos, negsuc, einval, length, get_or, set, take, drop, replicate,
}
use cube.EnumFlag.{load}
use cube.MessageQueue.{enomem, is_negative}
use cube.Message.{msg_box_expand, MessageHead, MessageBox, MsgExpand, Site, null_site, StructOps}

-- The type and the subtype of an expand, in its struct or in its bytes.
unfoldable pub is_type : ℕ → ℕ → ℕ → ℕ → Bool
is_type type subtype t s = (t == type) && (s == subtype)

-- The test in the loop of `message_remove_expand`, at the struct and the bytes of a site; `none`
-- where there is neither.
unfoldable pub has_type :
    {S : Type 0} → ℕ → ℕ → Option (MsgExpand S) → Option (List ℕ) → Option Bool
unfolding is_type
has_type type subtype (some e) bytes = some (is_type type subtype e.type e.subtype)
has_type type subtype none (some b) =
    some (is_type type subtype (load 4 (drop 4 b)) (load 4 (drop 8 b)))
has_type type subtype none none = none

-- The sites from an index on, each in the place of the one before.
unfoldable pub shift_down : {A : Type 0} → ℕ → List A → List A
shift_down i [] = []
shift_down zero (s ∷ sites) = sites
shift_down (suc i) (s ∷ sites) = s ∷ shift_down i sites

-- A round of the loop of `message_remove_expand` at the index `i`.
unfoldable pub at_type : ℕ → Option (Option ℕ) → Option Bool → Option (Option ℕ)
at_type i rest none = some none
at_type i rest (some true) = some (some i)
at_type i rest (some false) = rest

module _ {S : Type 0} where
  -- `__message_add_expand_site`, as `__message_add_record_site`.
  unfoldable pub add_expand_site : Bool → MessageBox S → ℕ → ℤ × MessageBox S
  add_expand_site memory m increment =
      let n : ℕ = m.head.expand_num in
      let head : MessageHead = record (m.head) { expand_num = n + increment } in
      if memory
      then (
        pos 0,
        record m { head = head; expands = take n m.expands ++ replicate increment null_site },
      )
      else (enomem, record m { head = head; expands = [] })

  -- The store of a new expand at an index. The memory for its struct is not tested: without it the
  -- struct is cloned to NULL, which is `none`.
  unfoldable pub put_expand :
      StructOps S → Bool → MessageBox S → ℕ → MsgExpand S → Option (ℤ × MessageBox S)
  put_expand ops false m curr_site e = none
  put_expand ops true m curr_site e =
      let (status, copy) = ops.struct_clone (e.type, e.subtype) e.expand in
      let new_expand : MsgExpand S = record e { data_size = 0; expand = copy } in
      let site : Site (MsgExpand S) = get_or m.expands curr_site null_site in
      if is_negative status
      then some (status, m)
      else some (
        status,
        record m {
          expands = set m.expands curr_site (record site { struct = some new_expand });
          box_state = msg_box_expand;
        },
      )

  -- `message_add_expand`, with whether there is memory for the sites, for the expand and for its
  -- struct.
  unfoldable pub message_add_expand :
      StructOps S
      → Bool
      → Bool
      → Bool
      → MessageBox S
      → Option (MsgExpand S)
      → Option (ℤ × MessageBox S)
  unfolding add_expand_site put_expand
  message_add_expand ops for_sites for_expand for_struct m none = some (einval, m)
  message_add_expand ops for_sites for_expand for_struct m (some e) =
      let (status, ready) = add_expand_site for_sites m 1 in
      if is_negative status
      then some (einval, ready)
      else if for_expand && ops.has_template (e.type, e.subtype)
      then put_expand ops for_struct ready m.head.expand_num e
      else some (enomem, ready)

  -- `message_add_expand_data`, where there is memory for its own expand.
  unfoldable pub message_add_expand_data :
      StructOps S → Bool → Bool → Bool → MessageBox S → ℕ → ℕ → Option S → Option (ℤ × MessageBox S)
  unfolding message_add_expand
  message_add_expand_data ops for_sites for_expand for_struct m type subtype none = some (einval, m)
  message_add_expand_data ops for_sites for_expand for_struct m type subtype (some value) =
      message_add_expand ops for_sites for_expand for_struct m
        (some (record { data_size = 0; type = type; subtype = subtype; expand = value }))

  -- `message_add_expand_blob`.
  unfoldable pub message_add_expand_blob :
      Bool → Bool → MessageBox S → ℕ → List ℕ → ℤ × MessageBox S
  unfolding add_expand_site
  message_add_expand_blob for_sites for_expand m size blob =
      let curr_site : ℕ = m.head.expand_num in
      let (status, ready) = add_expand_site for_sites m 1 in
      let site : Site (MsgExpand S) = record {
        bytes = if for_expand then some (take size blob) else none;
        struct = none;
        size = size;
      } in
      if is_negative status then (einval, ready) else (
        if for_expand then pos size else enomem,
        record ready { expands = set ready.expands curr_site site },
      )

  -- A round of the loop of `message_get_define_expand` at the index `i`.
  unfoldable pub at_struct :
      ℕ
      → ℕ
      → ℕ
      → Option (Option (ℕ × MsgExpand S))
      → Option (MsgExpand S)
      → Option (Option (ℕ × MsgExpand S))
  unfolding is_type
  at_struct type subtype i rest none = rest
  at_struct type subtype i rest (some e) =
      if is_type type subtype e.type e.subtype then some (some (i, e)) else rest

  -- The loop of `message_get_define_expand` over `n` sites from the index `i` on: `none` outside of
  -- the arrays, else the index and the expand that it found.
  unfoldable pub find_struct :
      ℕ → ℕ → ℕ → ℕ → List (Site (MsgExpand S)) → Option (Option (ℕ × MsgExpand S))
  unfolding at_struct
  find_struct type subtype i zero sites = some none
  find_struct type subtype i (suc n) [] = none
  find_struct type subtype i (suc n) (s ∷ sites) =
      at_struct type subtype i (find_struct type subtype (i + 1) n sites) s.struct

  unfoldable pub found_struct :
      Option (Option (ℕ × MsgExpand S)) → Option (ℤ × Option (MsgExpand S))
  found_struct none = none
  found_struct (some none) = some (pos 0, none)
  found_struct (some (some (i, e))) = some (pos i, some e)

  -- `message_get_define_expand`: the result and `*addr`.
  unfoldable pub message_get_define_expand :
      MessageBox S → ℕ → ℕ → Option (ℤ × Option (MsgExpand S))
  unfolding find_struct found_struct
  message_get_define_expand m type subtype =
      found_struct (find_struct type subtype 0 m.head.expand_num m.expands)

  -- The loop of `message_replace_define_expand`, which ends at a site without a struct.
  unfoldable pub find_until_null : ℕ → ℕ → ℕ → ℕ → List (Site (MsgExpand S)) → Option (Option ℕ)
  unfolding is_type
  find_until_null type subtype i zero sites = some none
  find_until_null type subtype i (suc n) [] = none
  find_until_null type subtype i (suc n) (s ∷ sites) =
      let rest = find_until_null type subtype (i + 1) n sites in
      elim s.struct [
        | none ↦ some none
        | some e ↦ if is_type type subtype e.type e.subtype then some (some i) else rest
      ]

  -- `message_replace_define_expand`.
  unfoldable pub message_replace_define_expand :
      MessageBox S → MsgExpand S → ℕ → ℕ → Option (ℤ × MessageBox S)
  unfolding find_until_null
  message_replace_define_expand m addr type subtype =
      elim (find_until_null type subtype 0 m.head.expand_num m.expands) [
        | none ↦ none
        | some none ↦ some (pos 0, m)
        | some (some i) ↦
            let site : Site (MsgExpand S) = get_or m.expands i null_site in
            let new_site : Site (MsgExpand S) = elim site.bytes [
              | none ↦ record site { struct = some addr }
              | some b ↦ record { bytes = none; struct = some addr; size = 0 }
            ] in
            some (pos i, record m { expands = set m.expands i new_site })
      ]

  -- `message_remove_indexed_expand`: the status, `*expand` and the message. What the loop reads
  -- behind the arrays goes to the index that `expand_num` leaves out.
  unfoldable pub message_remove_indexed_expand :
      MessageBox S → ℕ → ℤ × Option (MsgExpand S) × MessageBox S
  unfolding shift_down
  message_remove_indexed_expand m expand_no =
      let site : Site (MsgExpand S) = get_or m.expands expand_no null_site in
      if ltb expand_no m.head.expand_num
      then (
        pos 0,
        site.struct,
        record m {
          expands = shift_down expand_no m.expands;
          head = record (m.head) { expand_num = m.head.expand_num - 1 };
        },
      )
      else (einval, none, m)

  -- The loop of `message_remove_expand`: the index of the first expand of a type, if the loop comes
  -- to one.
  unfoldable pub find_site : ℕ → ℕ → ℕ → ℕ → List (Site (MsgExpand S)) → Option (Option ℕ)
  unfolding has_type at_type
  find_site type subtype i zero sites = some none
  find_site type subtype i (suc n) [] = none
  find_site type subtype i (suc n) (s ∷ sites) =
      at_type i (find_site type subtype (i + 1) n sites) (has_type type subtype s.struct s.bytes)

  -- The end of `message_remove_expand` behind its loop.
  unfoldable pub remove_at :
      MessageBox S → Option (Option ℕ) → Option (ℤ × Option (MsgExpand S) × MessageBox S)
  unfolding message_remove_indexed_expand
  remove_at m none = none
  remove_at m (some none) = some (pos 0, none, m)
  remove_at m (some (some i)) =
      let (status, removed, m') = message_remove_indexed_expand m i in some (pos 0, removed, m')

  -- `message_remove_expand`.
  unfoldable pub message_remove_expand :
      MessageBox S → ℕ → ℕ → Option (ℤ × Option (MsgExpand S) × MessageBox S)
  unfolding find_site remove_at
  message_remove_expand m type subtype =
      remove_at m (find_site type subtype 0 m.head.expand_num m.expands)
