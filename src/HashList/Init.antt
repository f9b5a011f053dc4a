-- ===== src/HashList/Init.antt =====
-- New hash lists.
use cube.Prelude.{
  ℕ, zero, suc, ◌^◌, ◌≤◌, ◌≡◌, ◌≢◌, ◌⊎◌, refl, sym, ap, ◌∙◌, subst, List, [], Option, none, some,
  Bool, true, false, arith, ◌==◌, if◌then◌else◌, ltb, inl, inr, length-replicate, replicate,
  passes_under, passes_under-lt,
}
use cube.HashList.{
  Node, UuidHead, HashList, hindex, chain, init_hash_list, hashlist_add_elem, list_find_uuidelem,
  hashlist_find_elem, find_node, head_of,
}
use cube.HashList.Chain.{HasUuids}
use cube.HashList.Lookup.{IsValid, hindex-sized, find_node-chain}

chain-replicate : (n i : ℕ) → chain (replicate n []) i ≡ []
chain-replicate zero i = refl
chain-replicate (suc n) zero = refl
chain-replicate (suc n) (suc i) = chain-replicate n i

abbrev pub fresh : ℕ → HashList
fresh n = record {
  hash_num = n;
  desc = 0;
  table = replicate n [];
  curr_index = 0;
  curr_head = none;
}

pub fresh-IsValid : (n : ℕ) → (n ≡ 256) ⊎ (n ≡ 1024) → IsValid (fresh n)
fresh-IsValid n s = record {
  sized = s;
  width = length-replicate {A = List Node} n [];
  uuids = λ i. subst HasUuids (sym (chain-replicate n i)) tt;
}

pub find-fresh :
    (n : ℕ) (uuid : List ℕ) → (n ≡ 256) ⊎ (n ≡ 1024) → hashlist_find_elem (fresh n) uuid ≡ none
unfolding hashlist_find_elem list_find_uuidelem
find-fresh n uuid s =
    let (i, e, h) = hindex-sized n uuid s in
    ap head_of (
      find_node-chain (fresh n) uuid i e
      ∙ ap (λ ns. list_find_uuidelem ns uuid) (chain-replicate n i))

init-sized : (order : ℕ) → order ≤ 10 → init_hash_list order true ≡ some (some (fresh (2 ^ order)))
unfolding init_hash_list
init-sized order h = let b : ltb 10 order ≡ false = ground arith in rw b

-- `init_hash_list` of the orders 8 and 10 makes, when memory is allocated, a valid list, in which
-- `hashlist_find_elem` finds no uuid.
pub init_hash_list-IsValid :
    (order : ℕ) (uuid : List ℕ)
    → (order ≡ 8) ⊎ (order ≡ 10)
    → (t : HashList) × (init_hash_list order true ≡ some (some t))
      × IsValid t
      × (hashlist_find_elem t uuid ≡ none)
init_hash_list-IsValid order uuid s =
    let sized : (2 ^ order ≡ 256) ⊎ (2 ^ order ≡ 1024) = elim s [
      | inl e ↦ inl (ap (λ k. 2 ^ k) e)
      | inr e ↦ inr (ap (λ k. 2 ^ k) e)
    ] in
    (
      fresh (2 ^ order),
      init-sized order (ground arith),
      fresh-IsValid (2 ^ order) sized,
      find-fresh (2 ^ order) uuid sized,
    )

abbrev no_hash : ℕ → Bool
no_hash order =
    if order == 8
    then true
    else if order == 10
    then true
    else if 2 ^ order == 256
    then false
    else if 2 ^ order == 1024
    then false
    else true

no_hash_table : (order : ℕ) → order ≤ 10 → no_hash order ≡ true
unfolding passes_under
no_hash_table order h = passes_under-lt no_hash 11 refl order (omega arith)

hindex-unsized :
    (order : ℕ) (uuid : List ℕ)
    → order ≤ 10
    → order ≢ 8
    → order ≢ 10
    → hindex (2 ^ order) uuid ≡ none
unfolding hindex
hindex-unsized order uuid h n8 n10 =
    let is8 : (order == 8) ≡ false = ground arith in
    let is10 : (order == 10) ≡ false = ground arith in
    refused _ _ (2 ^ order == 256) (2 ^ order == 1024) (rw (is8, is10) at (no_hash_table order h))
  where
    refused :
        (m k : ℕ) (b c : Bool)
        → (if b then false else if c then false else true) ≡ true
        → (if b then some m else if c then some k else none) ≡ none
    refused m k true c e = ground arith
    refused m k false true e = ground arith
    refused m k false false e = refl

-- The other orders up to 10 are accepted as well, but `hashlist_add_elem` refuses every element for
-- such a list and `hashlist_find_elem` finds none.
pub init_hash_list-unusable :
    (order : ℕ) (slot : Option ℕ) (elem : UuidHead) (uuid : List ℕ)
    → order ≤ 10
    → order ≢ 8
    → order ≢ 10
    → (t : HashList) × (init_hash_list order true ≡ some (some t))
      × (hashlist_add_elem t slot elem ≡ (none, t))
      × (hashlist_find_elem t uuid ≡ none)
unfolding hashlist_add_elem hashlist_find_elem find_node hindex
init_hash_list-unusable order slot elem uuid h n8 n10 = (
  fresh (2 ^ order),
  init-sized order h,
  refused slot,
  rw (hindex-unsized order uuid h n8 n10, find_node) refl,
)
  where
    refused :
        (slot : Option ℕ)
        → hashlist_add_elem (fresh (2 ^ order)) slot elem ≡ (none, fresh (2 ^ order))
    refused none = refl
    refused (some k) = rw (hindex-unsized order elem.uuid h n8 n10, hashlist_add_elem) refl
