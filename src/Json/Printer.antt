-- ===== src/Json/Printer.antt =====
-- The printer of json.c, `json_print_str`: a walk over the tree that keeps its place in `comp_no`
-- and `curr_child` of the nodes.
pub mod Progress
pub mod Rounds
pub mod Turns
pub mod Text
use cube.Prelude.{
  ℕ, zero, suc, ◌+◌, ◌-◌, ◌*◌, ◌%◌, ◌^◌, Bool, ◌||◌, true, false, Option, none, some, List, [], ◌∷◌,
  ◌++◌, ℤ, pos, negsuc, einval, ltb, ◌==◌, if◌then◌else◌, length, take, digest_size, codes,
}
use cube.Strings.{strnlen}
use cube.Number.{itoa}
use cube.Json.{
  Info, Node, Nodes, node, nil, cons, info_of, json_get_type, elem_num, elem_string, elem_bool,
  elem_map, elem_array,
}

-- A node above the place of the walk: how many children are done, and those behind `curr_child`.
pub record Frame : Type 0 where
  pub info : Info
  pub kids : Nodes
  pub comp_no : ℕ
  pub left : Nodes

-- `curr_node`, and the nodes above it up to the root, the nearest first.
pub record Place : Type 0 where
  pub curr : Frame
  pub fathers : List Frame

-- A round writes a text, and goes on at a place, ends at the root, or returns -EINVAL.
pub data Turn : Type 0 where
  more : List ℕ → Place → Turn
  done : List ℕ → Turn
  refused : List ℕ → Turn

-- A node that the walk comes to.
abbrev pub enter : Node → Frame
enter (node i kids) = record { info = i; kids = kids; comp_no = 0; left = kids }

-- The conversion of a `long long` to an `int`.
abbrev pub to_int : ℕ → ℤ
to_int v = if ltb (v % 2 ^ 32) (2 ^ 31) then pos (v % 2 ^ 32) else negsuc (2 ^ 32 - v % 2 ^ 32 - 1)

-- What is written in quotes: at most so many characters.
abbrev pub in_quotes : List ℕ → ℕ → List ℕ
in_quotes s max_len = b'"' ∷ take (strnlen s max_len) s ++ b'"' ∷ []

-- The text of a scalar; a node of no type has none.
unfoldable pub scalar_text : Info → Option (List ℕ)
scalar_text i =
    if json_get_type i == elem_string
    then some (in_quotes i.value_str (digest_size * 16))
    else if json_get_type i == elem_num
    then some (itoa (to_int i.value))
    else if json_get_type i == elem_bool
    then some (if i.value == 0 then codes "false" else codes "true")
    else none

-- `curr_node=json_get_father(curr_node)`, and the end at the root.
unfoldable pub leave : List ℕ → List Frame → Turn
leave written [] = done written
leave written (father ∷ fathers) = more written (record { curr = father; fathers = fathers })

-- The child that comes next, with what is written in front of it: a map or an array becomes the
-- current node, a scalar is written at once.
unfoldable pub print_child : List ℕ → Frame → List Frame → Node → Turn
unfolding scalar_text
print_child written f fathers (node i kids) =
    if (json_get_type i == elem_map) || (json_get_type i == elem_array)
    then more written (record { curr = enter (node i kids); fathers = f ∷ fathers })
    else elim (scalar_text i) [
      | none ↦ refused written
      | some value ↦ more (written ++ value) (record { curr = f; fathers = fathers })
    ]

-- What is written in front of a child.
abbrev pub name_text : Bool → Info → List ℕ
name_text named i = if named then in_quotes i.name digest_size ++ b':' ∷ [] else []

-- The child that `json_get_first_child` or `json_get_next_child` finds among these.
unfoldable pub next_child : Bool → List ℕ → List ℕ → Frame → List Frame → Nodes → Turn
unfolding print_child
next_child named refusal written f fathers nil = refused refusal
next_child named refusal written f fathers (cons n ns) =
    print_child (written ++ name_text named (info_of n))
      (record f { comp_no = f.comp_no + 1; left = ns }) fathers n

abbrev pub opening : Bool → ℕ
opening named = if named then b'{' else b'['

abbrev pub closing : Bool → ℕ
closing named = if named then b'}' else b']'

-- A round at a map (`named`) or an array.
unfoldable pub print_in : Bool → Place → Turn
unfolding next_child leave
print_in named p =
    if p.curr.info.elem_no == 0
    then leave (opening named ∷ closing named ∷ []) p.fathers
    else if p.curr.comp_no == 0
    then next_child named (opening named ∷ []) (opening named ∷ []) p.curr p.fathers p.curr.kids
    else if p.curr.comp_no == p.curr.info.elem_no
    then leave (closing named ∷ []) p.fathers
    else next_child named [] (b',' ∷ []) p.curr p.fathers p.curr.left

unfoldable pub print_round : Place → Turn
unfolding print_in
print_round p =
    if json_get_type p.curr.info == elem_map
    then print_in true p
    else if json_get_type p.curr.info == elem_array
    then print_in false p
    else refused []

-- The outcome: the whole text, or what was written before -EINVAL is returned.
pub data Printed : Type 0 where
  whole : List ℕ → Printed
  part : List ℕ → Printed

abbrev pub behind : List ℕ → Option Printed → Option Printed
behind written none = none
behind written (some (whole str)) = some (whole (written ++ str))
behind written (some (part str)) = some (part (written ++ str))

-- The loop, on fuel; `none` means that the fuel ran out.
unfoldable pub print_rounds : ℕ → Place → Option Printed
print_rounds zero p = none
print_rounds (suc fuel) p = elim (print_round p) [
  | more written p' ↦ behind written (print_rounds fuel p')
  | done written ↦ some (whole written)
  | refused written ↦ some (part written)
]

-- How many rounds a tree takes at most.
mutual
  pub weight : Node → ℕ
  weight (node i kids) = weights kids + 2

  pub weights : Nodes → ℕ
  weights nil = 0
  weights (cons n ns) = weight n + weights ns

-- The status of `json_print_str` and the text that it writes.
abbrev pub status_of : Option Printed → Option (ℤ × List ℕ)
status_of none = none
status_of (some (whole str)) = some (pos (length str), str)
status_of (some (part str)) = some (einval, str)

-- `json_print_str`; the root starts at the number 0.
unfoldable pub json_print_str : Node → Option (ℤ × List ℕ)
unfolding print_rounds weight
json_print_str root =
    status_of (print_rounds (weight root) (record { curr = enter root; fathers = [] }))
