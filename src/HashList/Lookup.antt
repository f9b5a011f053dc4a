-- ===== src/HashList/Lookup.antt =====
-- The hash list as a map from uuids to records.
use cube.Prelude.{
  ℕ, ◌<◌, ◌≡◌, ◌≢◌, ◌⊎◌, refl, sym, ap, ◌∙◌, subst, List, [], Option, none, some, false, arith,
  is_zero, ◌==◌, ==→eq, inl, inr, Bool-cases, length, set, length-set, get_or-set_self,
  get_or-set_ne,
}
use cube.HashList.{
  Node, UuidHead, HashList, get_hash_index, get_hash_subindex, hindex, comp_uuid, chain, snoc,
  del_found, hashlist_add_elem, list_find_uuidelem, find_node, hashlist_remove_elem,
}
use cube.HashList.Uuid.{IsUuid, comp_uuid_iff}
use cube.HashList.Chain.{or_else, match_node, HasUuids, find-snoc, snoc-HasUuids}

-- The sizes that have a hash function, and uuids in every record.
pub record IsValid (t : HashList) : Type 0 where
  pub sized : (t.hash_num ≡ 256) ⊎ (t.hash_num ≡ 1024)
  pub width : length t.table ≡ t.hash_num
  pub uuids : (i : ℕ) → HasUuids (chain t.table i)

pub hindex-sized :
    (n : ℕ) (uuid : List ℕ) → (n ≡ 256) ⊎ (n ≡ 1024) → (i : ℕ) × (hindex n uuid ≡ some i) × (i < n)
unfolding hindex get_hash_index get_hash_subindex
hindex-sized n uuid (inl e) = (get_hash_subindex uuid, rw e, omega arith)
hindex-sized n uuid (inr e) = (get_hash_index uuid, rw e, omega arith)

pub find_node-chain :
    (t : HashList) (uuid : List ℕ) (i : ℕ)
    → hindex t.hash_num uuid ≡ some i
    → find_node t uuid ≡ list_find_uuidelem (chain t.table i) uuid
unfolding find_node
find_node-chain t uuid i e = rw (e, find_node)

pub add-chain :
    (t : HashList) (slot : ℕ) (elem : UuidHead) (i : ℕ)
    → hindex t.hash_num elem.uuid ≡ some i
    → hashlist_add_elem t (some slot) elem ≡ (
      some slot,
      record t {
        table = set t.table i (snoc (chain t.table i) (record { slot = slot; head = elem }));
      },
    )
unfolding hashlist_add_elem
add-chain t slot elem i e = rw (e, hashlist_add_elem)

pub remove-chain :
    (t : HashList) (uuid : List ℕ) (i : ℕ) (n : Node)
    → hindex t.hash_num uuid ≡ some i
    → list_find_uuidelem (chain t.table i) uuid ≡ some n
    → hashlist_remove_elem t uuid
      ≡ (some n.head, record t { table = set t.table i (del_found (chain t.table i) uuid) })
unfolding hashlist_remove_elem
remove-chain t uuid i n e f = rw (e, hashlist_remove_elem) (rw (f, hashlist_remove_elem))

-- The chain `i` is replaced, the others are as before.
pub chain-set_self :
    (table : List (List Node)) (i : ℕ) (c : List Node)
    → i < length table
    → chain (set table i c) i ≡ c
chain-set_self table i c h = get_or-set_self table i c [] h

pub set-HasUuids :
    (t : HashList) (i : ℕ) (c : List Node)
    → IsValid t
    → i < t.hash_num
    → HasUuids c
    → IsValid (record t { table = set t.table i c })
set-HasUuids t i c v h u = record {
  sized = v.sized;
  width = length-set t.table i c ∙ v.width;
  uuids = λ j. elim (Bool-cases (i == j)) [
    | inl here ↦
        subst HasUuids
          (sym (chain-set_self t.table i c (omega (arith, v.width)))
            ∙ ap (chain (set t.table i c)) (==→eq i j here))
          u
    | inr other ↦ subst HasUuids (sym (get_or-set_ne t.table i j c [] (ground arith))) (v.uuids j)
  ];
}

or_else-none : (o : Option Node) → or_else o none ≡ o
or_else-none none = refl
or_else-none (some n) = refl

match_node-other :
    (n : Node) (uuid : List ℕ)
    → IsUuid n.head.uuid
    → IsUuid uuid
    → n.head.uuid ≢ uuid
    → match_node n uuid ≡ none
match_node-other n uuid hn hu ne = elim (Bool-cases (is_zero (comp_uuid n.head.uuid uuid))) [
  | inl found ↦ absurd (ne ((comp_uuid_iff n.head.uuid uuid hn hu).0 found))
  | inr on ↦ rw on refl
]

ne_index : (i j : ℕ) → (i == j) ≡ false → some i ≢ some j
ne_index i j h e = ground arith

-- `hashlist_add_elem` on a valid list keeps it valid, and a search afterwards finds what it found
-- before, and otherwise the new record if it has the uuid that is looked for.
pub find_node-hashlist_add_elem :
    (t : HashList) (slot : ℕ) (elem : UuidHead) (uuid : List ℕ)
    → IsValid t
    → IsUuid elem.uuid
    → IsUuid uuid
    → let (out, t') = hashlist_add_elem t (some slot) elem in
      (out ≡ some slot)
      × IsValid t'
      × (find_node t' uuid
          ≡ or_else (find_node t uuid) (match_node (record { slot = slot; head = elem }) uuid))
find_node-hashlist_add_elem t slot elem uuid v he hu =
    let n : Node = record { slot = slot; head = elem } in
    let (i, ei, hi) = hindex-sized t.hash_num elem.uuid v.sized in
    let (j, ej, hj) = hindex-sized t.hash_num uuid v.sized in
    let c : List Node = snoc (chain t.table i) n in
    let t' : HashList = record t { table = set t.table i c } in
    let w : i < length t.table = omega (arith, v.width) in
    rw (add-chain t slot elem i ei) (
      refl,
      set-HasUuids t i c v hi (snoc-HasUuids (chain t.table i) n (v.uuids i) he),
      find_node-chain t' uuid j ej ∙ elim (Bool-cases (i == j)) [
        | inl here ↦ find-here (==→eq i j here) w ej
        | inr other ↦
            ap (λ ns. list_find_uuidelem ns uuid) (get_or-set_ne t.table i j c [] (ground arith))
            ∙ sym (find_node-chain t uuid j ej)
            ∙ sym (or_else-none (find_node t uuid))
            ∙ ap (or_else (find_node t uuid)) (
                sym (
                  match_node-other n uuid he hu
                    (λ e. ne_index i j other (sym ei ∙ ap (hindex t.hash_num) e ∙ ej))))
      ],
    )
  where
    find-here :
        {i j : ℕ}
        → i ≡ j
        → i < length t.table
        → hindex t.hash_num uuid ≡ some j
        → list_find_uuidelem
            (chain (set t.table i (snoc (chain t.table i) (record { slot = slot; head = elem }))) j)
            uuid
          ≡ or_else (find_node t uuid) (match_node (record { slot = slot; head = elem }) uuid)
    find-here {i} {j} e w ej =
        ap
          (λ k.
            list_find_uuidelem
              (chain (set t.table i (snoc (chain t.table i) (record { slot = slot; head = elem })))
                k)
              uuid)
          (sym e)
        ∙ ap (λ ns. list_find_uuidelem ns uuid)
            (chain-set_self t.table i (snoc (chain t.table i) (record { slot = slot; head = elem }))
              w)
        ∙ find-snoc (chain t.table i) (record { slot = slot; head = elem }) uuid
        ∙ ap (λ o. or_else o (match_node (record { slot = slot; head = elem }) uuid))
            (ap (λ k. list_find_uuidelem (chain t.table k) uuid) e
              ∙ sym (find_node-chain t uuid j ej))
