-- ===== src/HashList/Tests.antt =====
-- Hash lists with a few records, and the theorems at them.
use cube.Prelude.{
  ℕ, zero, suc, ◌<◌, ◌≡◌, ◌≢◌, refl, ap, List, [], ◌∷◌, ◌++◌, none, some, arith, inl, All, IsByte,
  replicate, length, length-replicate, get_or,
}
use cube.HashList.{
  UuidHead, HashList, hindex, snoc, hashlist_add_elem, list_find_uuidelem, find_node,
  hashlist_find_elem, hashlist_remove_elem, get_hash_subindex,
}
use cube.HashList.Cursor.{hashlist_get_first}
use cube.HashList.Uuid.{IsUuid}
use cube.HashList.Chain.{or_else, match_node}
use cube.HashList.Lookup.{IsValid, find_node-hashlist_add_elem}
use cube.HashList.Init.{fresh, fresh-IsValid}
use cube.HashList.Removal.{
  Removes, hashlist_remove_elem_lem, hashlist_remove_elem-hashlist_add_elem,
}
use cube.HashList.Iterate.{Apart, nodes, heads, walk, get_first-walk}

abbrev uuid_of : ℕ → List ℕ
uuid_of b = replicate 32 b

uuid_of-IsUuid : (b : ℕ) → b < 256 → IsUuid (uuid_of b)
uuid_of-IsUuid b h = (length-replicate 32 b, all 32)
  where
    all : (n : ℕ) → All IsByte (replicate n b)
    all zero = tt
    all (suc n) = (h, all n)

uuid_of-inj : uuid_of 5 ≢ uuid_of 6
uuid_of-inj e = absurd (omega (arith, ap (λ u. get_or u 0 0) e))

abbrev five : UuidHead
five = record { uuid = uuid_of 5; name = []; type_no = 1; subtype_no = 2 }

abbrev six : UuidHead
six = record { uuid = uuid_of 6; name = []; type_no = 1; subtype_no = 2 }

one : HashList
one = (hashlist_add_elem (fresh 256) (some 7) five).1

one-IsValid : IsValid one
unfolding one
one-IsValid =
    (find_node-hashlist_add_elem (fresh 256) 7 five (uuid_of 5) (fresh-IsValid 256 (inl refl))
      (uuid_of-IsUuid 5 (omega arith)) (uuid_of-IsUuid 5 (omega arith))).1

find_node-hashlist_add_elem_example :
    let (out, t') = hashlist_add_elem one (some 8) six in
    (out ≡ some 8)
    × IsValid t'
    × (find_node t' (uuid_of 6)
        ≡ or_else
            (find_node one (uuid_of 6))
            (match_node (record { slot = 8; head = six }) (uuid_of 6)))
find_node-hashlist_add_elem_example =
    find_node-hashlist_add_elem one 8 six (uuid_of 6) one-IsValid (uuid_of-IsUuid 6 (omega arith))
      (uuid_of-IsUuid 6 (omega arith))

hashlist_remove_elem_lem_example :
    let (out, t') = hashlist_remove_elem one (uuid_of 5) in
    (out ≡ hashlist_find_elem one (uuid_of 5))
    × IsValid t'
    × (hashlist_find_elem t' (uuid_of 6) ≡ hashlist_find_elem one (uuid_of 6))
    × Removes one (uuid_of 5) (out, t')
hashlist_remove_elem_lem_example =
    hashlist_remove_elem_lem one (uuid_of 5) (uuid_of 6) one-IsValid
      (uuid_of-IsUuid 5 (omega arith)) (uuid_of-IsUuid 6 (omega arith)) uuid_of-inj

find-one : hashlist_find_elem one (uuid_of 6) ≡ none
unfolding hashlist_find_elem one find_node hindex get_hash_subindex hashlist_add_elem
    list_find_uuidelem snoc
find-one = refl

hashlist_remove_elem-hashlist_add_elem_example :
    let (out, t') = hashlist_add_elem one (some 8) six in
    hashlist_remove_elem t' (uuid_of 6) ≡ (some six, one)
hashlist_remove_elem-hashlist_add_elem_example =
    hashlist_remove_elem-hashlist_add_elem one 8 six one-IsValid (uuid_of-IsUuid 6 (omega arith))
      find-one

-- Two chains with records and an empty one between them.
abbrev some_records : HashList
some_records = record {
  hash_num = 3;
  desc = 0;
  table =
      (record { slot = 7; head = five } ∷ record { slot = 8; head = six } ∷ [])
      ∷ []
      ∷ (record { slot = 9; head = five } ∷ [])
      ∷ [];
  curr_index = 0;
  curr_head = none;
}

some_records-Apart : All Apart some_records.table
some_records-Apart = (((omega arith, tt), (tt, tt)), (tt, ((tt, tt), tt)))

get_first-walk_example :
    let (rec, t') = hashlist_get_first some_records in
    rec ∷ walk (length (nodes some_records.table)) t'
    ≡ heads (nodes some_records.table) ++ none ∷ []
get_first-walk_example = get_first-walk some_records some_records-Apart
