-- ===== src/Json/Reader.antt =====
-- The reader of json.c, `json_solve_str`: a state machine over the nodes that are open.
pub mod Taken
pub mod Progress
pub mod Lexing
pub mod Steps
pub mod Values
pub mod RoundTrip
pub mod Limits
use cube.Prelude.{
  ℕ, zero, suc, ◌+◌, ◌-◌, ◌<◌, Bool, true, false, not, ◌||◌, Option, none, some, List, [], ◌∷◌, ℤ,
  pos, negsuc, einval, leb, ltb, ◌==◌, if◌then◌else◌, length, drop, get_or, digest_size,
}
use cube.Json.{
  Info, Node, Nodes, node, nil, cons, snoc, blank, json_get_type, json_set_type, elem_null,
  elem_num, elem_string, elem_bool, elem_map, elem_array,
}
use cube.MessageQueue.{enomem}
use cube.Json.Lexer.{
  is_split_char, is_number, json_get_strvalue, json_get_numvalue, json_get_boolvalue, skip_ignored,
}

-- A node whose children are not complete, with those it has.
pub record Open : Type 0 where
  pub info : Info
  pub kids : Nodes

-- `curr_node`, and the nodes above it, the nearest first.
pub record Focus : Type 0 where
  pub curr : Open
  pub fathers : List Open

-- What the call does: it returns a status and leaves `*root` as it is, or returns how many
-- characters it has read and the tree; or it writes behind `value_buffer`, or through NULL.
pub data Outcome : Type 0 where
  returned : ℤ → Outcome
  solved : ℕ → Node → Outcome
  overflow : Outcome
  null_access : Outcome

-- Whether a round gets memory: both allocations of `_new_json_node` for the child, and `Dalloc` for
-- its `value_str`.
pub record Room : Type 0 where
  pub child : Bool
  pub text : Bool

abbrev pub enough : Room
enough = record { child = true; text = true }

-- The tree above a node, with the nodes that are open as they are.
unfoldable pub close_all : Node → List Open → Node
close_all n [] = n
close_all n (f ∷ fathers) = close_all (node f.info (snoc f.kids n)) fathers

abbrev pub root_of : Focus → Node
root_of f = close_all (node f.curr.info f.curr.kids) f.fathers

-- One round of the loop leaves the rest of the text and the focus, or ends the call. `ended` has
-- the rest of the text, from which the count follows.
pub data Round : Type 0 where
  go : List ℕ → Focus → Round
  ended : List ℕ → Node → Round
  failed : ℤ → Round
  overrun : Round
  through_null : Round

-- `child_node`, complete: it is linked into its father, whose `elem_no` grows.
abbrev pub with_child : Open → Node → Open
with_child f n = record {
  info = record f.info { elem_no = f.info.elem_no + 1 };
  kids = snoc f.kids n;
}

abbrev pub add_child : Focus → Node → Focus
add_child f n = record f { curr = with_child f.curr n }

-- `curr_node=child_node`.
abbrev pub open_child : Focus → Info → Focus
open_child f i = record { curr = record { info = i; kids = nil }; fathers = f.curr ∷ f.fathers }

-- `curr_node=json_get_father(curr_node)`, and the end of the loop where there is none.
unfoldable pub close_curr : List ℕ → Focus → Round
close_curr str f = elim f.fathers [
  | [] ↦ ended str (node f.curr.info f.curr.kids)
  | father ∷ fathers ↦
      go str (record { curr = with_child father (node f.curr.info f.curr.kids); fathers = fathers })
]

-- Where maps and arrays differ: the flag of the child, the longest text in quotes, and whether a
-- number may start with a minus.
pub record Mode : Type 0 where
  pub isvalue : Bool
  pub longest : ℕ
  pub signed : Bool

abbrev pub map_mode : Mode
map_mode = record { isvalue = false; longest = 770; signed = true }

abbrev pub array_mode : Mode
array_mode = record { isvalue = true; longest = 514; signed = false }

-- The room of `value_buffer`.
abbrev pub buffer_size : ℕ
buffer_size = 512

-- Whether a text and its terminator, or the part of it that is stored before an error, go past it.
abbrev pub overruns : ℤ × List ℕ → Bool
overruns (pos ret, text) = leb buffer_size (length text)
overruns (negsuc e, text) = ltb buffer_size (length text)

-- A scalar child from what its lexer returned: an error, a length of `DIGEST_SIZE` or more, which is
-- returned as it is, or the child. The value is stored into the child without a test for NULL.
unfoldable pub scalar : Room → ℕ → Mode → Info → List ℕ → Focus → ℤ × ℕ → Round
scalar room datatype m child str f (negsuc e, value) = failed (negsuc e)
scalar room datatype m child str f (pos ret, value) =
    if leb digest_size ret
    then failed (pos ret)
    else if room.child
    then go (drop ret str)
        (add_child f (node (record (json_set_type child datatype m.isvalue) { value = value }) nil))
    else through_null

unfoldable pub string_child : Room → Mode → Info → List ℕ → Focus → ℤ × List ℕ → Round
string_child room m child str f (negsuc e, text) =
    if overruns (negsuc e, text) then overrun else failed (negsuc e)
string_child room m child str f (pos ret, text) =
    if overruns (pos ret, text)
    then overrun
    else if ltb m.longest ret
    then failed einval
    else if not room.child
    then through_null
    else if not room.text
    then failed enomem
    else go (drop ret str) (
        add_child f
          (node (record (json_set_type child elem_string m.isvalue) { value_str = text }) nil))

-- `curr_node=child_node` for a map or an array: without memory for the child the loop ends at NULL.
unfoldable pub opened_child : Room → List ℕ → Focus → Info → Round
opened_child room str f child =
    if room.child then go str (open_child f child) else ended str (root_of f)

-- The value of a child: a map or an array becomes the current node, all else is read at once.
unfoldable pub child_value : Room → Mode → Info → List ℕ → Focus → Round
unfolding scalar string_child opened_child
child_value room m child str f =
    let c = get_or str 0 0 in
    if c == b'{'
    then opened_child room (drop 1 str) f (json_set_type child elem_map m.isvalue)
    else if c == b'['
    then opened_child room (drop 1 str) f (json_set_type child elem_array m.isvalue)
    else if c == b'"'
    then string_child room m child str f (json_get_strvalue str)
    else if (if m.signed then c == b'-' else false) || is_number c
    then scalar room elem_num m child str f (json_get_numvalue str)
    else scalar room elem_bool m child str f (json_get_boolvalue str)

-- Behind the name of a child: a colon and its value.
unfoldable pub named_value : Room → List ℕ → List ℕ → Focus → Round
unfolding child_value skip_ignored
named_value room name str f =
    if get_or (skip_ignored str) 0 0 == b':'
    then child_value room map_mode (record blank { name = name })
        (skip_ignored (drop 1 (skip_ignored str))) f
    else failed einval

-- The name of a child. One of `DIGEST_SIZE` characters or more with its quotes ends the call with
-- that length. Else it is copied into the child without a test for NULL.
unfoldable pub child_name : Room → List ℕ → Focus → ℤ × List ℕ → Round
unfolding named_value
child_name room str f (negsuc e, text) =
    if overruns (negsuc e, text) then overrun else failed (negsuc e)
child_name room str f (pos ret, text) =
    if overruns (pos ret, text)
    then overrun
    else if leb digest_size ret
    then failed (pos ret)
    else if room.child
    then named_value room text (drop ret str) f
    else through_null

-- The `switch` on the type of `curr_node`, on a character that splits nothing.
unfoldable pub at_root : List ℕ → Focus → Round
at_root str f =
    let c = get_or str 0 0 in
    let retyped = λ (datatype : ℕ). record f {
      curr = record f.curr { info = json_set_type f.curr.info datatype true };
    } in
    if c == b'{'
    then go (drop 1 str) (retyped elem_map)
    else if c == b'['
    then go (drop 1 str) (retyped elem_array)
    else failed einval

unfoldable pub in_map : Room → List ℕ → Focus → Round
unfolding child_name close_curr
in_map room str f =
    let c = get_or str 0 0 in
    if c == b'}'
    then close_curr (drop 1 str) f
    else if c == b','
    then go (drop 1 str) f
    else if c == b'"'
    then child_name room str f (json_get_strvalue str)
    else failed einval

unfoldable pub in_array : Room → List ℕ → Focus → Round
unfolding child_value close_curr
in_array room str f =
    let c = get_or str 0 0 in
    if c == b']'
    then close_curr (drop 1 str) f
    else if c == b','
    then go (drop 1 str) f
    else child_value room array_mode blank str f

unfoldable pub one_round : Room → List ℕ → Focus → Round
unfolding at_root in_map in_array
one_round room str f =
    if get_or str 0 0 == 0
    then ended str (root_of f)
    else if is_split_char (get_or str 0 0)
    then go (drop 1 str) f
    else if json_get_type f.curr.info == elem_null
    then at_root str f
    else if json_get_type f.curr.info == elem_map
    then in_map room str f
    else if json_get_type f.curr.info == elem_array
    then in_array room str f
    else failed einval

-- The loop, on fuel; `none` means that the fuel ran out. `size` is the length of the whole text, and
-- `memory` says what a round gets by the length of the text that is left at it.
unfoldable pub rounds : (ℕ → Room) → ℕ → ℕ → List ℕ → Focus → Option Outcome
rounds memory zero size str f = none
rounds memory (suc fuel) size str f = elim (one_round (memory (length str)) str f) [
  | go str' f' ↦ rounds memory fuel size str' f'
  | ended str' n ↦ some (solved (size - length str') n)
  | failed status ↦ some (returned status)
  | overrun ↦ some overflow
  | through_null ↦ some null_access
]

abbrev pub start : Focus
start = record { curr = record { info = blank; kids = nil }; fathers = [] }

-- `json_solve_str`; `for_root` is whether there is memory for the root. Each round takes a character
-- at least, so the length is enough.
unfoldable pub json_solve_str : Bool → (ℕ → Room) → List ℕ → Option Outcome
unfolding rounds one_round
json_solve_str for_root memory str =
    if for_root
    then rounds memory (length str + 1) (length str) str start
    else some (returned enomem)
