-- ===== src/Json/Access.antt =====
-- The functions of json.c by which the tree is looked at and changed from outside.
pub mod Members
use cube.Prelude.{
  ℕ, ◌+◌, ◌-◌, Bool, true, false, ◌||◌, Option, List, [], ◌∷◌, ◌++◌, ℤ, pos, ◌==◌, if◌then◌else◌,
  length, take, replicate, digest_size,
}
use cube.Strings.{strnlen}
use cube.Json.{Info, Node, Nodes, node, nil, cons, json_get_type, elem_map, elem_array}

-- `get_record_List_no`: the entries of a list of records.
unfoldable pub get_record_list_no : Nodes → ℕ
get_record_list_no nil = 0
get_record_list_no (cons n ns) = get_record_list_no ns + 1

-- `json_comp_elemno`: the status and the node, whose `elem_no` is set to the number of its children.
unfoldable pub json_comp_elemno : Node → ℤ × Node
unfolding get_record_list_no
json_comp_elemno (node i kids) =
    if (json_get_type i == elem_map) || (json_get_type i == elem_array)
    then (pos (get_record_list_no kids), node (record i { elem_no = get_record_list_no kids }) kids)
    else (pos 0, node i kids)

-- `json_add_child`, when memory is allocated: the child comes in front of the others, and neither
-- `elem_no` nor the father of the child is set.
unfoldable pub json_add_child : Node → Node → Node
json_add_child (node i kids) child = node i (cons child kids)

-- `json_node_getname`: the length and the bytes that are stored, with a terminator if there is room.
unfoldable pub json_node_getname : Info → ℤ × List ℕ
json_node_getname i =
    let len = strnlen i.name digest_size in
    (pos len, take len i.name ++ replicate (if len == digest_size then 0 else 1) 0)
