-- ===== src/Json.antt =====
-- The JSON trees of cubelib/json/json.c: nodes and what is read from them.
pub mod Lexer
pub mod Reader
pub mod Spec
pub mod Printer
pub mod RoundTrip
pub mod Access
mod Tests
use cube.Prelude.{
  ℕ, ◌+◌, ◌*◌, ◌%◌, ◌^◌, Bool, true, false, ◌||◌, Option, none, some, List, [], ◌∷◌, ℤ, pos, einval,
  leb, ltb, ◌==◌, is_zero, if◌then◌else◌, length, take, replicate, digest_size,
}
use cube.Strings.{strncmp, strnlen}

-- `enum json_elem_type`, and `JSON_ELEM_VALUE`.
abbrev pub elem_null : ℕ
elem_null = 0

abbrev pub elem_num : ℕ
elem_num = 1

abbrev pub elem_string : ℕ
elem_string = 2

abbrev pub elem_bool : ℕ
elem_bool = 3

abbrev pub elem_map : ℕ
elem_map = 4

abbrev pub elem_array : ℕ
elem_array = 5

abbrev pub elem_value : ℕ
elem_value = 0x1000

-- The fields of `JSON_NODE` beside its links. `value` is the bit pattern of a `long long`, and the
-- two texts stand without their terminators.
pub record Info : Type 0 where
  pub elem_type : ℕ
  pub name : List ℕ
  pub value_str : List ℕ
  pub value : ℕ
  pub elem_no : ℕ

-- A node with its children in the order of `childlist`.
mutual
  pub data Node : Type 0 where
    node : Info → Nodes → Node

  pub data Nodes : Type 0 where
    nil : Nodes
    cons : Node → Nodes → Nodes

pub snoc : Nodes → Node → Nodes
snoc nil n = cons n nil
snoc (cons m ns) n = cons m (snoc ns n)

-- A node as `_new_json_node` makes it.
abbrev pub blank : Info
blank = record { elem_type = 0; name = []; value_str = []; value = 0; elem_no = 0 }

-- `json_get_type` and `json_is_value` of a node that is there.
abbrev pub json_get_type : Info → ℕ
json_get_type i = i.elem_type % elem_value

-- `json_set_type`: the status and the node; `isvalue` is a flag of its own.
unfoldable pub json_set_type : Info → ℕ → Bool → Info
json_set_type i datatype isvalue =
    if ltb elem_array datatype
    then i
    else if datatype == elem_null
    then (if isvalue then record i { elem_type = json_get_type i + elem_value } else i)
    else record i { elem_type = (if isvalue then elem_value else 0) + datatype }

abbrev pub info_of : Node → Info
info_of (node i kids) = i

abbrev pub kids_of : Node → Nodes
kids_of (node i kids) = kids

-- The loop of `json_find_elem` over the children.
unfoldable pub find_named : List ℕ → Nodes → Option Node
find_named name nil = none
find_named name (cons n ns) =
    if is_zero (strncmp name (info_of n).name digest_size) then some n else find_named name ns

-- `json_find_elem`. The cursor `curr_child` of the node, which its walk sets, is not in a `Node`.
unfoldable pub json_find_elem : List ℕ → Node → Option Node
unfolding find_named
json_find_elem name root =
    if json_get_type (info_of root) == elem_map then find_named name (kids_of root) else none

-- What `json_node_getvalue` stores: nothing new, a number cut to so many bytes, or a text.
pub data Stored : Type 0 where
  cleared : Stored
  number : ℕ → ℕ → Stored
  text : List ℕ → Stored

-- A number in the widest type of the list that has room; without room `len` is not set (`none`).
unfoldable pub stored_number : ℕ → ℕ → Bool → Option (ℤ × Stored)
stored_number value max_len long =
    if (if long then leb 8 max_len else false)
    then some (pos 8, number 8 value)
    else if leb 4 max_len
    then some (pos 4, number 4 (value % 2 ^ 32))
    else if leb 2 max_len
    then some (pos 2, number 2 (value % 2 ^ 16))
    else if leb 1 max_len
    then some (pos 1, number 1 (value % 2 ^ 8))
    else none

-- `json_node_getvalue`: the `switch` is on the whole `elem_type`, with the flag in it.
unfoldable pub json_node_getvalue : Info → ℕ → Option (ℤ × Stored)
unfolding stored_number
json_node_getvalue i max_len =
    if i.elem_type == elem_null
    then some (pos 0, cleared)
    else if i.elem_type == elem_num
    then stored_number i.value max_len true
    else if i.elem_type == elem_bool
    then stored_number i.value max_len false
    else if i.elem_type == elem_string
    then some
        (pos (strnlen i.value_str max_len), text (take (strnlen i.value_str max_len) i.value_str))
    else some (einval, cleared)
