-- ===== src/Message/Expands/Added.antt =====
-- What message_add_expand of cubelib/message/message.c adds, on each of its branches.
use cube.Prelude.{
  ℕ, ◌+◌, ◌≡◌, refl, sym, ap, ap₂, ◌∙◌, true, false, ◌&&◌, if◌then◌else◌, none, some, List, [], ◌∷◌,
  ◌++◌, append-nil, pos, einval, length, length-append, get_or, set, take_all, All, arith,
}
use cube.MessageQueue.{enomem, is_negative}
use cube.Message.{msg_box_expand, MessageBox, MsgExpand, Site, null_site, StructOps}
use cube.Message.Expands.{
  is_type, has_type, add_expand_site, put_expand, message_add_expand, find_struct, found_struct,
  message_get_define_expand, message_remove_expand,
}
use cube.Message.Expands.Found.{
  Other, set-append, get_or-append, find_struct-Other, message_remove_expand-first,
}

module _ {S : Type 0} (ops : StructOps S) (m : MessageBox S) (e : MsgExpand S) where
  -- The site of a new expand, and the message with a site more.
  pub added : S → Site (MsgExpand S)
  added copy = record {
    bytes = none;
    struct = some (record e { data_size = 0; expand = copy });
    size = 0;
  }

  unfoldable pub with_site : Site (MsgExpand S) → MessageBox S
  with_site s = record m {
    expands = m.expands ++ s ∷ [];
    head = record (m.head) { expand_num = m.head.expand_num + 1 };
  }

  add_expand_site-with_site :
      m.head.expand_num ≡ length m.expands → add_expand_site true m 1 ≡ (pos 0, with_site null_site)
  unfolding add_expand_site with_site
  add_expand_site-with_site n =
      ap
        (λ l. (
          pos 0,
          record m {
            expands = l ++ null_site ∷ [];
            head = record (m.head) { expand_num = m.head.expand_num + 1 };
          },
        ))
        (take_all m.head.expand_num m.expands (omega arith))

  put_expand-added :
      (k : ℕ) (copy : S)
      → m.head.expand_num ≡ length m.expands
      → ops.struct_clone (e.type, e.subtype) e.expand ≡ (pos k, copy)
      → put_expand ops true (with_site null_site) m.head.expand_num e
        ≡ some (pos k, record (with_site (added copy)) { box_state = msg_box_expand })
  unfolding put_expand with_site added
  put_expand-added k copy n c =
      let sites : List (Site (MsgExpand S)) = m.expands ++ null_site ∷ [] in
      let new : Site (MsgExpand S) → Site (MsgExpand S) =
        λ s. record s { struct = some (record e { data_size = 0; expand = copy }) } in
      let box : List (Site (MsgExpand S)) → MessageBox S = λ l. record m {
        expands = l;
        head = record (m.head) { expand_num = m.head.expand_num + 1 };
        box_state = msg_box_expand;
      } in
      rw c (
        ap (λ i. some (pos k, box (set sites i (new (get_or sites i null_site))))) n
        ∙ ap (λ s. some (pos k, box (set sites (length m.expands) (new s))))
            (get_or-append m.expands null_site [] null_site)
        ∙ ap (λ l. some (pos k, box l)) (set-append m.expands null_site (added copy)))

  -- An expand of a type with a template that can be cloned goes behind the others.
  message_add_expand-added :
      (k : ℕ) (copy : S)
      → m.head.expand_num ≡ length m.expands
      → ops.has_template (e.type, e.subtype) ≡ true
      → ops.struct_clone (e.type, e.subtype) e.expand ≡ (pos k, copy)
      → message_add_expand ops true true true m (some e)
        ≡ some (pos k, record (with_site (added copy)) { box_state = msg_box_expand })
  unfolding message_add_expand
  message_add_expand-added k copy n t c =
      ap
        (λ r.
          let (status, ready) = r in
          if is_negative status
          then some (einval, ready)
          else if true && ops.has_template (e.type, e.subtype)
          then put_expand ops true ready m.head.expand_num e
          else some (enomem, ready))
        (add_expand_site-with_site n)
      ∙ rw t (put_expand-added k copy n c)

  -- An expand of a type without a template is refused, but leaves a site without a struct and
  -- without bytes behind the others.
  pub message_add_expand-refused :
      m.head.expand_num ≡ length m.expands
      → ops.has_template (e.type, e.subtype) ≡ false
      → message_add_expand ops true true true m (some e) ≡ some (enomem, with_site null_site)
  unfolding message_add_expand
  message_add_expand-refused n t =
      ap
        (λ r.
          let (status, ready) = r in
          if is_negative status
          then some (einval, ready)
          else if true && ops.has_template (e.type, e.subtype)
          then put_expand ops true ready m.head.expand_num e
          else some (enomem, ready))
        (add_expand_site-with_site n)
      ∙ rw t refl

  -- An expand that is added to a message without one of its type and subtype, where the type has a
  -- template, the struct can be cloned and there is memory, is found at the index behind the
  -- others, with the cloned struct, and removing this type hands it out and leaves the message as
  -- it was, but for its box state.
  pub message_add_expand-get-remove :
      (k : ℕ) (copy : S)
      → m.head.expand_num ≡ length m.expands
      → ops.has_template (e.type, e.subtype) ≡ true
      → ops.struct_clone (e.type, e.subtype) e.expand ≡ (pos k, copy)
      → All (Other e.type e.subtype) m.expands
      → (m' : MessageBox S) × (message_add_expand ops true true true m (some e) ≡ some (pos k, m'))
        × (message_get_define_expand m' e.type e.subtype
            ≡ some (pos (length m.expands), some (record e { data_size = 0; expand = copy })))
        × (message_remove_expand m' e.type e.subtype
            ≡ some (
              pos 0,
              some (record e { data_size = 0; expand = copy }),
              record m { box_state = msg_box_expand },
            ))
  unfolding with_site added message_get_define_expand has_type
  message_add_expand-get-remove k copy n t c o =
      let m' : MessageBox S = record (with_site (added copy)) { box_state = msg_box_expand } in
      let new : MsgExpand S = record e { data_size = 0; expand = copy } in
      let sites : List (Site (MsgExpand S)) = m.expands ++ added copy ∷ [] in
      let size : length sites ≡ length m.expands + 1 = length-append m.expands (added copy ∷ []) in
      let number : m.head.expand_num + 1 ≡ length sites = omega arith in
      let this : is_type e.type e.subtype e.type e.subtype ≡ true =
        unfold is_type in ground arith in
      (
        m',
        message_add_expand-added k copy n t c,
        ap (λ i. found_struct (find_struct e.type e.subtype 0 i sites)) number
            ∙ ap found_struct (
                find_struct-Other e.type e.subtype 0 m.expands (added copy) new (length sites) o
                  refl this refl)
            ∙ ap (λ i. some (pos i, some new)) (omega arith),
        message_remove_expand-first e.type e.subtype m' m.expands [] (added copy) refl number o
              (ap some this)
            ∙ ap₂
                (λ l i. some (
                  pos 0,
                  some new,
                  record m {
                    expands = l;
                    head = record (m.head) { expand_num = i };
                    box_state = msg_box_expand;
                  },
                ))
                (append-nil m.expands) (ap length (append-nil m.expands) ∙ sym n),
      )
