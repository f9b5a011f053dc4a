-- ===== src/EnumFlag.antt =====
-- Enumerations and flags as text: cubelib/struct_mod/enum_flag_ops.c.
pub mod Joined
pub mod RoundTrip
mod Tests
use cube.Prelude.{
  ℕ, zero, suc, ◌+◌, ◌-◌, ◌*◌, ◌/◌, ◌%◌, ◌^◌, bit_and, bit_or, Bool, true, false, not, ◌&&◌, ◌||◌,
  Option, none, some, List, [], ◌∷◌, ◌++◌, ℤ, pos, negsuc, einval, leb, ltb, ◌==◌, is_zero,
  if◌then◌else◌, length, get_or, drop, codes,
}
use cube.Strings.{strcmp}

-- The kinds of `enum cube_struct_elem_type` that are treated here.
abbrev pub cube_type_enum : ℕ
cube_type_enum = 4

abbrev pub cube_type_senum : ℕ
cube_type_senum = 5

abbrev pub cube_type_benum : ℕ
cube_type_benum = 6

abbrev pub cube_type_flag : ℕ
cube_type_flag = 7

abbrev pub cube_type_sflag : ℕ
cube_type_sflag = 8

abbrev pub cube_type_bflag : ℕ
cube_type_bflag = 9

abbrev pub nulstring : List ℕ
nulstring = codes "NULL"

-- `NAME2VALUE`. The name stands without its terminator, and the value as its 32 bits.
pub record Name2Value : Type 0 where
  pub name : List ℕ
  pub value : ℕ

-- `struct_namelist`, with whether the name behind its last element is NULL.
pub record NameList : Type 0 where
  pub elemlist : List Name2Value
  pub ends_null : Bool

-- The bytes of a field and of what stands behind it, the lowest byte of a number first. A write
-- past the end is not seen.
unfoldable pub load : ℕ → List ℕ → ℕ
load zero addr = 0
load (suc n) addr = get_or addr 0 0 + 256 * load n (drop 1 addr)

unfoldable pub store : ℕ → ℕ → List ℕ → List ℕ
store zero v addr = addr
store (suc n) v [] = []
store (suc n) v (b ∷ addr) = v % 256 ∷ store n (v / 256) addr

-- The loop of `enum_get_text_value`.
unfoldable pub name_of : List Name2Value → ℕ → Option (List ℕ)
name_of [] v = none
name_of (e ∷ elems) v = let rest = name_of elems v in if e.value == v then some e.name else rest

-- The text with its terminator, and its length with it.
abbrev pub ended : List ℕ → ℤ × List ℕ
ended text = (pos (length text + 1), text ++ 0 ∷ [])

unfoldable pub enum_text : NameList → ℕ → ℤ × List ℕ
unfolding name_of
enum_text l v = elim (name_of l.elemlist v) [
  | some name ↦ ended name
  | none ↦ if v == 0 then ended nulstring else (einval, [])
]

-- `enum_get_text_value`, of an element with a list of names.
unfoldable pub enum_get_text_value : ℕ → NameList → List ℕ → ℤ × List ℕ
unfolding enum_text load
enum_get_text_value elem_type l addr =
    if elem_type == cube_type_enum
    then enum_text l (load 4 addr)
    else if elem_type == cube_type_senum
    then enum_text l (load 2 addr)
    else if elem_type == cube_type_benum
    then enum_text l (load 1 addr)
    else (einval, [])

-- The loop of `enum_set_text_value`: the last element of the name counts; without one `enum_value`
-- is not set.
unfoldable pub last_value : List Name2Value → List ℕ → Option ℕ
last_value [] text = none
last_value (e ∷ elems) text = elim (last_value elems text) [
  | some v ↦ some v
  | none ↦ if is_zero (strcmp e.name text) then some e.value else none
]

-- 32 bits as an `int`.
abbrev pub as_int : ℕ → ℤ
as_int v = if ltb v (2 ^ 31) then pos v else negsuc (2 ^ 32 - v - 1)

-- `enum_set_text_value`: the status and the field; `none` where a value that was never set is
-- stored.
unfoldable pub enum_set_text_value : ℕ → NameList → List ℕ → List ℕ → Option (ℤ × List ℕ)
unfolding last_value store
enum_set_text_value elem_type l addr text =
    if is_zero (strcmp nulstring text)
    then some (pos 0, store 4 0 addr)
    else elim (last_value l.elemlist text) [
      | none ↦ none
      | some v ↦
          if elem_type == cube_type_enum
          then some (as_int v, store 4 v addr)
          else if elem_type == cube_type_senum
          then (if ltb 32767 v then some (einval, addr) else some (as_int v, store 2 v addr))
          else if elem_type == cube_type_benum
          then (if ltb 127 v then some (einval, addr) else some (as_int v, store 1 v addr))
          else some (einval, addr)
    ]

-- The loop of `flag_get_text_value` behind the text that is written.
unfoldable pub flag_names : List Name2Value → ℕ → List ℕ → List ℕ
flag_names [] v text = text
flag_names (e ∷ elems) v text =
    if bit_and e.value v == 0
    then flag_names elems v text
    else flag_names elems v ((if length text == 0 then text else text ++ b'|' ∷ []) ++ e.name)

unfoldable pub flag_text : NameList → ℕ → ℤ × List ℕ
unfolding flag_names
flag_text l v =
    let text = flag_names l.elemlist v [] in
    if length text == 0 then ended nulstring else ended text

-- The width in bytes of a flag.
unfoldable pub flag_width : ℕ → Option ℕ
flag_width elem_type =
    if elem_type == cube_type_flag
    then some 4
    else if elem_type == cube_type_sflag
    then some 2
    else if elem_type == cube_type_bflag
    then some 1
    else none

-- `flag_get_text_value`.
unfoldable pub flag_get_text_value : ℕ → NameList → List ℕ → ℤ × List ℕ
unfolding flag_text load
flag_get_text_value elem_type l addr = elim (flag_width elem_type) [
  | none ↦ (einval, [])
  | some width ↦ flag_text l (load width addr)
]

-- The inner loop of `flag_set_text_value`: the first element of the name.
unfoldable pub value_of : List Name2Value → List ℕ → Option ℕ
value_of [] text = none
value_of (e ∷ elems) text =
    let rest = value_of elems text in if is_zero (strcmp e.name text) then some e.value else rest

-- How the outer loop ends: with a value, with a name that is not there, or with a write behind
-- `temp_string`.
pub data FlagRead : Type 0 where
  flags : ℕ → FlagRead
  unknown : FlagRead
  overrun : FlagRead

-- The outer loop, with the part of `temp_string` that is written. `room` is its size.
abbrev pub room : ℕ
room = 32

unfoldable pub flag_loop : NameList → List ℕ → List ℕ → ℕ → FlagRead
unfolding value_of
flag_loop l [] temp v = flags v
flag_loop l (c ∷ text) temp v =
    let skip = flag_loop l text temp v in
    let longer = flag_loop l text (temp ++ c ∷ []) v in
    let passed = flag_loop l text [] v in
    if c == b'|'
    then skip
    else if leb room (length temp)
    then overrun
    else if not (get_or text 0 0 == b'|') && not (get_or text 0 0 == 0)
    then longer
    else if leb room (length temp + 1)
    then overrun
    else elim (value_of l.elemlist (temp ++ c ∷ [])) [
      | some w ↦ flag_loop l text [] (bit_or v w)
      | none ↦ if l.ends_null then unknown else passed
    ]

-- `flag_set_text_value`: the status and the field; `none` for a write behind `temp_string`.
unfoldable pub flag_set_text_value : ℕ → NameList → List ℕ → List ℕ → Option (ℤ × List ℕ)
unfolding flag_loop store flag_width
flag_set_text_value elem_type l addr text =
    if is_zero (strcmp nulstring text)
    then some (pos 0, store 4 0 addr)
    else elim (flag_loop l text [] 0) [
      | overrun ↦ none
      | unknown ↦ some (einval, addr)
      | flags v ↦ elim (flag_width elem_type) [
        | none ↦ some (einval, addr)
        | some width ↦ some (pos 0, store width v addr)
      ]
    ]
