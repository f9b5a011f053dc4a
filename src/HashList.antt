-- ===== src/HashList.antt =====
-- The hash list of cubelib/basefunc/basefunc.c: records with a uuid in chains of `Record_List`.
pub mod Uuid
pub mod Chain
pub mod Cursor
pub mod Lookup
pub mod Init
pub mod Removal
pub mod Iterate
pub mod Parall
mod Tests
use cube.Prelude.{
  ℕ, zero, suc, ◌+◌, ◌*◌, ◌^◌, ◌%◌, Bool, true, false, Option, none, some, List, [], ◌∷◌, ℤ, pos,
  negsuc, ltb, leb, ◌==◌, if◌then◌else◌, get_or, set, replicate, drop, is_zero, digest_size,
}
use cube.Strings.{strncmp}

-- `UUID_HEAD`.
pub record UuidHead : Type 0 where
  pub uuid : List ℕ
  pub name : List ℕ
  pub type_no : ℕ
  pub subtype_no : ℕ

-- A `Record_List` in a chain, by its address.
pub record Node : Type 0 where
  pub slot : ℕ
  pub head : UuidHead

-- `UUID_LIST`. A chain is the list of its nodes, as ListHead justifies; `curr_head` is `none` for
-- NULL, and the description pointer is a number.
pub record HashList : Type 0 where
  pub hash_num : ℕ
  pub desc : ℕ
  pub table : List (List Node)
  pub curr_index : ℕ
  pub curr_head : Option ℕ

-- The `unsigned int` at the index `i`, lowest byte first.
abbrev pub word_at : List ℕ → ℕ → ℕ
word_at b i =
    get_or b i 0
    + get_or b (i + 1) 0 * 256
    + get_or b (i + 2) 0 * 65536
    + get_or b (i + 3) 0 * 16777216

-- `get_hash_index` keeps the low ten bits, `get_hash_subindex` the first byte.
pub get_hash_index : List ℕ → ℕ
get_hash_index uuid = word_at uuid 0 % 2 ^ 10

pub get_hash_subindex : List ℕ → ℕ
get_hash_subindex uuid = get_or uuid 0 0 % 2 ^ 8

-- The chain for a uuid; other sizes than 256 and 1024 have none.
pub hindex : ℕ → List ℕ → Option ℕ
unfolding get_hash_index get_hash_subindex
hindex hash_num uuid =
    if hash_num == 256
    then some (get_hash_subindex uuid)
    else if hash_num == 1024
    then some (get_hash_index uuid)
    else none

-- The loop of `comp_uuid` over the `n` words that are left, from the byte `i` on.
comp_words : List ℕ → List ℕ → ℕ → ℕ → ℤ
comp_words src desc i zero = pos 0
comp_words src desc i (suc n) =
    let rest = comp_words src desc (i + 4) n in
    if ltb (word_at desc i) (word_at src i)
    then pos 1
    else if ltb (word_at src i) (word_at desc i)
    then negsuc 0
    else rest

-- `comp_uuid`.
pub comp_uuid : List ℕ → List ℕ → ℤ
unfolding comp_words
comp_uuid src desc = comp_words src desc 0 8

-- `init_hash_list`, for an order that is not negative; `allocated` tells whether `Salloc0` gets memory.
-- Without it `Salloc` stores through NULL, which is `none`; `some none` is NULL.
pub init_hash_list : ℕ → Bool → Option (Option HashList)
init_hash_list order allocated =
    if ltb 10 order
    then some none
    else if allocated
    then some (
        some (record {
          hash_num = 2 ^ order;
          desc = 0;
          table = replicate (2 ^ order) [];
          curr_index = 0;
          curr_head = none;
        }))
    else none

-- `hashlist_get_desc` and `hashlist_set_desc`.
pub hashlist_get_desc : HashList → ℕ
hashlist_get_desc t = t.desc

pub hashlist_set_desc : HashList → ℕ → HashList
hashlist_set_desc t desc = record t { desc = desc }

abbrev pub chain : List (List Node) → ℕ → List Node
chain table i = get_or table i []

pub snoc : List Node → Node → List Node
snoc [] n = n ∷ []
snoc (m ∷ ns) n = m ∷ snoc ns n

-- `hashlist_add_elem`: `slot` is what `Calloc0` returned. Whichever way the record field is set, it
-- points at the element afterwards.
pub hashlist_add_elem : HashList → Option ℕ → UuidHead → Option ℕ × HashList
unfolding snoc
hashlist_add_elem t none elem = (none, t)
hashlist_add_elem t (some slot) elem = elim (hindex t.hash_num elem.uuid) [
  | none ↦ (none, t)
  | some i ↦ (
    some slot,
    record t {
      table = set t.table i (snoc (chain t.table i) (record { slot = slot; head = elem }));
    },
  )
]

-- `list_find_uuidelem`.
pub list_find_uuidelem : List Node → List ℕ → Option Node
list_find_uuidelem [] uuid = none
list_find_uuidelem (n ∷ ns) uuid =
    if is_zero (comp_uuid n.head.uuid uuid) then some n else list_find_uuidelem ns uuid

-- `list_find_nameelem`, by `comp_name`.
pub list_find_nameelem : List Node → List ℕ → Option Node
list_find_nameelem [] name = none
list_find_nameelem (n ∷ ns) name =
    if is_zero (strncmp n.head.name name digest_size) then some n else list_find_nameelem ns name

-- `_hashlist_find_elem`.
pub find_node : HashList → List ℕ → Option Node
find_node t uuid = elim (hindex t.hash_num uuid) [
  | none ↦ none
  | some i ↦ list_find_uuidelem (chain t.table i) uuid
]

abbrev pub head_of : Option Node → Option UuidHead
head_of none = none
head_of (some n) = some n.head

-- `hashlist_find_elem`.
pub hashlist_find_elem : HashList → List ℕ → Option UuidHead
hashlist_find_elem t uuid = head_of (find_node t uuid)

-- The loop of `hashlist_find_elem_byname`.
find_in_chains : List (List Node) → List ℕ → Option Node
find_in_chains [] name = none
find_in_chains (ns ∷ table) name =
    let rest = find_in_chains table name in
    elim (list_find_nameelem ns name) [ some n ↦ some n | none ↦ rest ]

-- `hashlist_find_elem_byname`.
pub hashlist_find_elem_byname : HashList → List ℕ → Option UuidHead
unfolding find_in_chains
hashlist_find_elem_byname t name = head_of (find_in_chains t.table name)

-- `List_del` of the node that `list_find_uuidelem` finds.
pub del_found : List Node → List ℕ → List Node
del_found [] uuid = []
del_found (n ∷ ns) uuid = if is_zero (comp_uuid n.head.uuid uuid) then ns else n ∷ del_found ns uuid

-- `hashlist_remove_elem`, with `_hashlist_remove_elem`.
pub hashlist_remove_elem : HashList → List ℕ → Option UuidHead × HashList
unfolding del_found
hashlist_remove_elem t uuid = elim (hindex t.hash_num uuid) [
  | none ↦ (none, t)
  | some i ↦ elim (list_find_uuidelem (chain t.table i) uuid) [
    | none ↦ (none, t)
    | some n ↦ (some n.head, record t { table = set t.table i (del_found (chain t.table i) uuid) })
  ]
]
