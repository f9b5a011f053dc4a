-- ===== src/Message/Expands/Found.antt =====
-- The expands of a message by their type: what is added, found and removed.
use cube.Prelude.{
  ℕ, zero, suc, ◌+◌, ◌-◌, ◌≡◌, refl, ap, ap₂, ◌∙◌, true, false, ltb, Option, none, some, List, [],
  ◌∷◌, ◌++◌, pos, length, length-append, get_or, set, All, arith,
}
use cube.Message.{MessageBox, MsgExpand, Site, null_site}
use cube.Message.Expands.{
  is_type, has_type, at_type, at_struct, shift_down, find_struct, find_site, remove_at,
  message_remove_expand,
}

shift_down-append :
    {A : Type 0} (front : List A) (s : A) (back : List A)
    → shift_down (length front) (front ++ s ∷ back) ≡ front ++ back
unfolding shift_down
shift_down-append [] s back = refl
shift_down-append (x ∷ front) s back = ap (◌∷◌ x) (shift_down-append front s back)

pub set-append :
    {A : Type 0} (front : List A) (s v : A)
    → set (front ++ s ∷ []) (length front) v ≡ front ++ v ∷ []
set-append [] s v = refl
set-append (x ∷ front) s v = ap (◌∷◌ x) (set-append front s v)

pub get_or-append :
    {A : Type 0} (front : List A) (s : A) (back : List A) (d : A)
    → get_or (front ++ s ∷ back) (length front) d ≡ s
get_or-append [] s back d = refl
get_or-append (x ∷ front) s back d = get_or-append front s back d

module _ {S : Type 0} (type subtype : ℕ) where
  -- A site with an expand of the type, and one with an expand of another.
  abbrev pub This : Site (MsgExpand S) → Type 0
  This s = has_type type subtype s.struct s.bytes ≡ some true

  abbrev pub Other : Site (MsgExpand S) → Type 0
  Other s = has_type type subtype s.struct s.bytes ≡ some false

  find_site-Other :
      (i : ℕ) (front back : List (Site (MsgExpand S))) (s : Site (MsgExpand S)) (n : ℕ)
      → All Other front
      → This s
      → n ≡ length (front ++ s ∷ back)
      → find_site type subtype i n (front ++ s ∷ back) ≡ some (some (i + length front))
  unfolding find_site
  find_site-Other i [] back s zero o t e = absurd (omega arith)
  find_site-Other i [] back s (suc n) o t e =
      ap (at_type i (find_site type subtype (i + 1) n back)) t
      ∙ ap (λ k. some (some k)) (omega arith)
  find_site-Other i (x ∷ front) back s zero o t e = absurd (omega arith)
  find_site-Other i (x ∷ front) back s (suc n) o t e =
      ap (at_type i (find_site type subtype (i + 1) n (front ++ s ∷ back))) o.0
      ∙ find_site-Other (i + 1) front back s n o.1 t (omega arith)
      ∙ ap (λ k. some (some k)) (omega arith)

  at_struct-Other :
      (i : ℕ) (rest : Option (Option (ℕ × MsgExpand S))) (struct : Option (MsgExpand S))
      (bytes : Option (List ℕ))
      → has_type type subtype struct bytes ≡ some false
      → at_struct type subtype i rest struct ≡ rest
  unfolding at_struct has_type
  at_struct-Other i rest none bytes o = refl
  at_struct-Other i rest (some e) bytes o =
      let test : is_type type subtype e.type e.subtype ≡ false = cc in rw test refl

  pub find_struct-Other :
      (i : ℕ) (front : List (Site (MsgExpand S))) (s : Site (MsgExpand S)) (e : MsgExpand S) (n : ℕ)
      → All Other front
      → s.struct ≡ some e
      → is_type type subtype e.type e.subtype ≡ true
      → n ≡ length (front ++ s ∷ [])
      → find_struct type subtype i n (front ++ s ∷ []) ≡ some (some (i + length front, e))
  unfolding find_struct
  find_struct-Other i [] s e zero o t u p = absurd (omega arith)
  find_struct-Other i [] s e (suc n) o t u p =
      ap (at_struct type subtype i (find_struct type subtype (i + 1) n [])) t
      ∙ rw u (ap (λ k. some (some (k, e))) (omega arith))
  find_struct-Other i (x ∷ front) s e zero o t u p = absurd (omega arith)
  find_struct-Other i (x ∷ front) s e (suc n) o t u p =
      at_struct-Other i (find_struct type subtype (i + 1) n (front ++ s ∷ [])) x.struct x.bytes o.0
      ∙ find_struct-Other (i + 1) front s e n o.1 t u (omega arith)
      ∙ ap (λ k. some (some (k, e))) (omega arith)

  -- The first expand of a type is removed, those before and behind it stay.
  pub message_remove_expand-first :
      (m : MessageBox S) (front back : List (Site (MsgExpand S))) (s : Site (MsgExpand S))
      → m.expands ≡ front ++ s ∷ back
      → m.head.expand_num ≡ length m.expands
      → All Other front
      → This s
      → message_remove_expand m type subtype
        ≡ some (
          pos 0,
          s.struct,
          record m {
            expands = front ++ back;
            head = record (m.head) { expand_num = length (front ++ back) };
          },
        )
  unfolding message_remove_expand
  message_remove_expand-first m front back s e n o t =
      let sites : List (Site (MsgExpand S)) = front ++ s ∷ back in
      let number : m.head.expand_num ≡ length sites = n ∙ ap length e in
      let size : length sites ≡ suc (length front + length back) =
        omega (arith, length-append front (s ∷ back)) in
      let small : ltb (length front) m.head.expand_num ≡ true = ground (arith, number, size) in
      let left : m.head.expand_num - 1 ≡ length (front ++ back) =
        omega (arith, length-append front back) in
      ap₂ (λ k l. remove_at m (find_site type subtype 0 k l)) number e
      ∙ ap (remove_at m) (find_site-Other 0 front back s (length sites) o t refl)
      ∙ ap (λ k. remove_at m (some (some k)))
          (let z : 0 + length front ≡ length front = omega arith in z)
      ∙ rw small (
          ap₂
            (λ l k. some (
              pos 0,
              (get_or l (length front) null_site).struct,
              record m {
                expands = shift_down (length front) l;
                head = record (m.head) { expand_num = k };
              },
            ))
            e left
          ∙ ap₂
              (λ x l. some (
                pos 0,
                x.struct,
                record m {
                  expands = l;
                  head = record (m.head) { expand_num = length (front ++ back) };
                },
              ))
              (get_or-append front s back null_site) (shift_down-append front s back))
