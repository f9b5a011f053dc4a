-- ===== src/HashList/Removal.antt =====
-- Taking records out of the hash list.
use cube.Prelude.{
  ℕ, zero, suc, ◌<◌, ◌≡◌, ◌≢◌, ◌⊎◌, refl, sym, ap, subst, ◌∙◌, List, [], ◌∷◌, ◌++◌, All, Option,
  none, some, true, arith, is_zero, ◌==◌, ==→eq, inl, inr, Bool-cases, length, set, get_or-set_ne,
}
use cube.HashList.{
  Node, UuidHead, HashList, hindex, comp_uuid, chain, snoc, del_found, hashlist_add_elem,
  list_find_uuidelem, find_node, head_of, hashlist_find_elem, hashlist_remove_elem,
}
use cube.HashList.Uuid.{IsUuid, comp_uuid_iff}
use cube.HashList.Chain.{
  or_else, match_node, HasUuids, find-snoc, del_found-snoc, find-del_found, del_found-HasUuids,
}
use cube.HashList.Lookup.{
  IsValid, hindex-sized, find_node-chain, add-chain, remove-chain, set-HasUuids, chain-set_self,
}

-- A record with another uuid.
abbrev Other : List ℕ → Node → Type 0
Other uuid n = n.head.uuid ≢ uuid

-- A chain, the first record of it with the uuid, and the chain without this record.
data Split (uuid : List ℕ) : List Node → Option Node → List Node → Type 0 where
  none_of : {ns : List Node} → All (Other uuid) ns → Split uuid ns none ns
  one_of :
      (front : List Node) (n : Node) (back : List Node)
      → All (Other uuid) front
      → n.head.uuid ≡ uuid
      → Split uuid (front ++ n ∷ back) (some n) (front ++ back)

Split-behind :
    {uuid : List ℕ} {ns ms : List Node} {o : Option Node} (n : Node)
    → Other uuid n
    → Split uuid ns o ms
    → Split uuid (n ∷ ns) o (n ∷ ms)
Split-behind n ne (none_of a) = none_of (ne, a)
Split-behind n ne (one_of front m back a e) = one_of (n ∷ front) m back (ne, a) e

del_found-Split :
    (ns : List Node) (uuid : List ℕ)
    → HasUuids ns
    → IsUuid uuid
    → Split uuid ns (list_find_uuidelem ns uuid) (del_found ns uuid)
unfolding list_find_uuidelem del_found
del_found-Split [] uuid h u = none_of tt
del_found-Split (n ∷ ns) uuid h u =
    let same = comp_uuid_iff n.head.uuid uuid h.0 u in
    elim (Bool-cases (is_zero (comp_uuid n.head.uuid uuid))) [
      | inl this ↦ rw this (one_of [] n ns tt (same.0 this))
      | inr on ↦
          rw on (Split-behind n (λ e. absurd (cc (same.1 e))) (del_found-Split ns uuid h.1 u))
    ]

-- What a removal gives: nothing, where no record of the chain of the uuid has it, or the first of
-- them that has it, which is taken out of this chain.
pub data Removes (t : HashList) (uuid : List ℕ) : Option UuidHead × HashList → Type 0 where
  nothing :
      (i : ℕ)
      → hindex t.hash_num uuid ≡ some i
      → All (Other uuid) (chain t.table i)
      → Removes t uuid (none, t)
  taken :
      (i : ℕ) (front : List Node) (n : Node) (back : List Node)
      → hindex t.hash_num uuid ≡ some i
      → chain t.table i ≡ front ++ n ∷ back
      → All (Other uuid) front
      → n.head.uuid ≡ uuid
      → Removes t uuid (some n.head, record t { table = set t.table i (front ++ back) })

Removes-Split :
    (t : HashList) (uuid : List ℕ) (i : ℕ) (ns : List Node) (o : Option Node) (ms : List Node)
    → hindex t.hash_num uuid ≡ some i
    → chain t.table i ≡ ns
    → Split uuid ns o ms
    → Removes t uuid (elim o [
      | none ↦ (none, t)
      | some n ↦ (some n.head, record t { table = set t.table i ms })
    ])
Removes-Split t uuid i _ _ _ e c (none_of {ns = ns} a) =
    nothing i e (subst (All (Other uuid)) (sym c) a)
Removes-Split t uuid i _ _ _ e c (one_of front n back a same) = taken i front n back e c a same

hashlist_remove_elem-Removes :
    (t : HashList) (uuid : List ℕ)
    → IsValid t
    → IsUuid uuid
    → Removes t uuid (hashlist_remove_elem t uuid)
unfolding hashlist_remove_elem
hashlist_remove_elem-Removes t uuid v u =
    let (i, e, h) = hindex-sized t.hash_num uuid v.sized in
    rw (e, hashlist_remove_elem)
      (Removes-Split t uuid i (chain t.table i) (list_find_uuidelem (chain t.table i) uuid)
        (del_found (chain t.table i) uuid) e refl
        (del_found-Split (chain t.table i) uuid (v.uuids i) u))

remove_absent :
    (t : HashList) (uuid : List ℕ) (i : ℕ)
    → hindex t.hash_num uuid ≡ some i
    → list_find_uuidelem (chain t.table i) uuid ≡ none
    → hashlist_remove_elem t uuid ≡ (none, t)
unfolding hashlist_remove_elem
remove_absent t uuid i e f = rw (e, hashlist_remove_elem) (rw (f, hashlist_remove_elem))

-- Two searches in one chain when it is replaced by another that has what is looked for as before.
find_same :
    (t : HashList) (uuid : List ℕ) (i j : ℕ) (c : List Node)
    → i < length t.table
    → hindex t.hash_num uuid ≡ some j
    → list_find_uuidelem c uuid ≡ list_find_uuidelem (chain t.table i) uuid
    → find_node (record t { table = set t.table i c }) uuid ≡ find_node t uuid
find_same t uuid i j c w ej same =
    find_node-chain (record t { table = set t.table i c }) uuid j ej
    ∙ elim (Bool-cases (i == j)) [
      | inl here ↦
          ap (λ k. list_find_uuidelem (chain (set t.table i c) k) uuid) (sym (==→eq i j here))
          ∙ ap (λ ns. list_find_uuidelem ns uuid) (chain-set_self t.table i c w)
          ∙ same
          ∙ ap (λ k. list_find_uuidelem (chain t.table k) uuid) (==→eq i j here)
      | inr other ↦
          ap (λ ns. list_find_uuidelem ns uuid) (get_or-set_ne t.table i j c [] (ground arith))
    ]
    ∙ sym (find_node-chain t uuid j ej)

-- `hashlist_remove_elem` of a uuid on a valid list takes the first record with this uuid out of its
-- chain and gives it, or gives NULL and changes nothing where no record of the chain has it. It gives
-- what `hashlist_find_elem` finds, keeps the list valid and leaves every search for another uuid as
-- it was.
pub hashlist_remove_elem_lem :
    (t : HashList) (uuid other : List ℕ)
    → IsValid t
    → IsUuid uuid
    → IsUuid other
    → uuid ≢ other
    → let (out, t') = hashlist_remove_elem t uuid in
      (out ≡ hashlist_find_elem t uuid)
      × IsValid t'
      × (hashlist_find_elem t' other ≡ hashlist_find_elem t other)
      × Removes t uuid (out, t')
unfolding hashlist_find_elem
hashlist_remove_elem_lem t uuid other v hu ho ne =
    let (i, ei, hi) = hindex-sized t.hash_num uuid v.sized in
    let (j, ej, hj) = hindex-sized t.hash_num other v.sized in
    elim (found (list_find_uuidelem (chain t.table i) uuid)) [
      | inl f ↦ rw (remove_absent t uuid i ei f) (
        sym (ap head_of (find_node-chain t uuid i ei ∙ f)),
        v,
        refl,
        gone (remove_absent t uuid i ei f),
      )
      | inr (n, f) ↦ rw (remove-chain t uuid i n ei f) (
        sym (ap head_of (find_node-chain t uuid i ei ∙ f)),
        set-HasUuids t i (del_found (chain t.table i) uuid) v hi
            (del_found-HasUuids (chain t.table i) uuid (v.uuids i)),
        ap head_of (
            find_same t other i j (del_found (chain t.table i) uuid) (omega (arith, v.width)) ej
              (find-del_found (chain t.table i) uuid other (v.uuids i) hu ho ne)),
        gone (remove-chain t uuid i n ei f),
      )
    ]
  where
    found : (o : Option Node) → (o ≡ none) ⊎ ((n : Node) × (o ≡ some n))
    found none = inl refl
    found (some n) = inr (n, refl)

    gone : {r : Option UuidHead × HashList} → hashlist_remove_elem t uuid ≡ r → Removes t uuid r
    gone e = subst (Removes t uuid) e (hashlist_remove_elem-Removes t uuid v hu)

-- Writing a chain over another one and then the first one back changes nothing.
set_back :
    (table : List (List Node)) (i : ℕ) (c : List Node)
    → i < length table
    → set (set table i c) i (chain table i) ≡ table
set_back [] i c h = refl
set_back (x ∷ table) zero c h = refl
set_back (x ∷ table) (suc i) c h = ap (λ rest. x ∷ rest) (set_back table i c (omega arith))

-- What was added under a uuid that is not in a valid list, `hashlist_remove_elem` gives back, and
-- the list is as before.
pub hashlist_remove_elem-hashlist_add_elem :
    (t : HashList) (slot : ℕ) (elem : UuidHead)
    → IsValid t
    → IsUuid elem.uuid
    → hashlist_find_elem t elem.uuid ≡ none
    → let (out, t') = hashlist_add_elem t (some slot) elem in
      hashlist_remove_elem t' elem.uuid ≡ (some elem, t)
unfolding hashlist_find_elem
hashlist_remove_elem-hashlist_add_elem t slot elem v he absent =
    let n : Node = record { slot = slot; head = elem } in
    let (i, ei, hi) = hindex-sized t.hash_num elem.uuid v.sized in
    let same : is_zero (comp_uuid elem.uuid elem.uuid) ≡ true =
      (comp_uuid_iff elem.uuid elem.uuid he he).1 refl in
    let w : i < length t.table = omega (arith, v.width) in
    let new : list_find_uuidelem (chain t.table i) elem.uuid ≡ none =
      head_none (list_find_uuidelem (chain t.table i) elem.uuid)
        (sym (ap head_of (find_node-chain t elem.uuid i ei)) ∙ absent) in
    let c : List Node = snoc (chain t.table i) n in
    rw (add-chain t slot elem i ei) (
      remove-chain (record t { table = set t.table i c }) elem.uuid i n ei
        (ap (λ ns. list_find_uuidelem ns elem.uuid) (chain-set_self t.table i c w)
          ∙ find-snoc (chain t.table i) n elem.uuid
          ∙ ap (λ o. or_else o (match_node n elem.uuid)) new
          ∙ match_self n elem.uuid same)
      ∙ ap (λ table. (some elem, record t { table = table }))
          (ap (λ ns. set (set t.table i c) i (del_found ns elem.uuid))
              (chain-set_self t.table i c w)
            ∙ ap (λ ns. set (set t.table i c) i ns)
                (del_found-snoc (chain t.table i) n elem.uuid new same)
            ∙ set_back t.table i c w))
  where
    head_none : (o : Option Node) → head_of o ≡ none → o ≡ none
    head_none none e = refl
    head_none (some m) e = ground arith

    match_self :
        (n : Node) (uuid : List ℕ)
        → is_zero (comp_uuid n.head.uuid uuid) ≡ true
        → match_node n uuid ≡ some n
    match_self n uuid e = rw e refl
