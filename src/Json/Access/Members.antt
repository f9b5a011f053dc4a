-- ===== src/Json/Access/Members.antt =====
-- The functions of json.c that look at a tree, on the trees of values.
use cube.Prelude.{
  ℕ, ◌+◌, ◌≡◌, refl, ap, Bool, true, false, Option, none, some, List, pos, einval, if◌then◌else◌,
  digest_size,
}
use cube.Strings.Same.{same_text, is_zero-strncmp}
use cube.Json.{Node, info_of, find_named, json_find_elem, json_node_getvalue, cleared}
use cube.Json.Spec.{
  Value, Members, string, number, flag, end, member, count, tree, trees, name-tree, FitsIn,
}
use cube.Json.Access.{get_record_list_no, json_comp_elemno, json_add_child}

get_record_list_no-trees :
    (isvalue : Bool) (ms : Members) → get_record_list_no (trees isvalue ms) ≡ count ms
unfolding get_record_list_no trees
get_record_list_no-trees isvalue end = refl
get_record_list_no-trees isvalue (member name v ms) =
    ap (λ k. k + 1) (get_record_list_no-trees isvalue ms)

-- A child that `json_add_child` puts into a map is its first member once `json_comp_elemno` has
-- counted the children, and their number is returned.
pub json_comp_elemno-add_child :
    (isvalue : Bool) (name own : List ℕ) (v : Value) (ms : Members)
    → json_comp_elemno (json_add_child (tree isvalue own (Value.map ms)) (tree false name v))
      ≡ (pos (count (member name v ms)), tree isvalue own (Value.map (member name v ms)))
unfolding json_comp_elemno json_add_child tree
json_comp_elemno-add_child true name own v ms = rw (get_record_list_no-trees false ms) refl
json_comp_elemno-add_child false name own v ms = rw (get_record_list_no-trees false ms) refl

-- `json_node_getvalue` refuses every element of an array and every root: the flag of values is left in the
-- type that it compares.
pub json_node_getvalue-flagged :
    (name : List ℕ) (v : Value) (max_len : ℕ)
    → json_node_getvalue (info_of (tree true name v)) max_len ≡ some (einval, cleared)
unfolding json_node_getvalue tree
json_node_getvalue-flagged name (string s) max_len = refl
json_node_getvalue-flagged name (number n) max_len = refl
json_node_getvalue-flagged name (flag b) max_len = refl
json_node_getvalue-flagged name (Value.map ms) max_len = refl
json_node_getvalue-flagged name (Value.array ms) max_len = refl

-- The first member of a name, as a node of the tree.
pub member_of : List ℕ → Members → Option Node
unfolding same_text
member_of name end = none
member_of name (member own v ms) =
    let rest = member_of name ms in if same_text name own then some (tree false own v) else rest

-- The names of the members, without what they stand for.
abbrev pub NamesFit : Members → Type 0
NamesFit end = Unit
NamesFit (member name v ms) = FitsIn digest_size name × NamesFit ms

find_named-trees :
    (name : List ℕ) (ms : Members)
    → FitsIn digest_size name
    → NamesFit ms
    → find_named name (trees false ms) ≡ member_of name ms
unfolding find_named member_of trees
find_named-trees name end f h = refl
find_named-trees name (member own v ms) f h =
    rw
      (
        name-tree false own v,
        is_zero-strncmp digest_size name own f h.0,
        find_named-trees name ms f h.1,
      )
      refl

-- `json_find_elem` in the tree of a map finds the first member of that name, and nothing where there is
-- none, for names of 32 characters at most.
pub json_find_elem-member_of :
    (isvalue : Bool) (name own : List ℕ) (ms : Members)
    → FitsIn digest_size name
    → NamesFit ms
    → json_find_elem name (tree isvalue own (Value.map ms)) ≡ member_of name ms
unfolding json_find_elem tree
json_find_elem-member_of true name own ms f h = find_named-trees name ms f h
json_find_elem-member_of false name own ms f h = find_named-trees name ms f h
