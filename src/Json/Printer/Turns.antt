-- ===== src/Json/Printer/Turns.antt =====
-- Single turns of the printer of json.c: scalars, and the rounds at a map or an array.
use cube.Prelude.{
  ℕ, ◌%◌, ◌^◌, ◌<◌, ◌≡◌, refl, sym, Bool, true, false, some, List, [], ◌∷◌, ◌++◌, pos, ltb, ◌==◌,
  arith, if◌then◌else◌, append-nil, codes,
}
use cube.Number.{itoa}
use cube.Json.{
  Info, Nodes, node, json_get_type, elem_num, elem_string, elem_bool, elem_map, elem_array,
  elem_value,
}
use cube.Json.Spec.{quoted, flagged, FitsIn}
use cube.Json.Printer.{
  Frame, Place, more, enter, to_int, scalar_text, leave, print_child, next_child, opening, closing,
  print_in, print_round,
}
use cube.Json.Printer.Rounds.{Prints, here, turn, LeadsTo, leads_to, Prints-trans, in_quotes-FitsIn}

-- A map or an array from its first round to the last one, which leaves it.
pub record Closes (p : Place) (fathers : List Frame) (str : List ℕ) : Type 0 where
  pub last : Place
  pub front : List ℕ
  pub back : List ℕ
  pub printed : Prints p front last
  pub leaves : print_round last ≡ leave back fathers
  pub text_of : str ≡ front ++ back

abbrev pub kind_of : Bool → ℕ
kind_of named = if named then elem_map else elem_array

-- The round at a map or an array.
pub print_round-in :
    (named : Bool) (p : Place)
    → json_get_type p.curr.info ≡ kind_of named
    → print_round p ≡ print_in named p
unfolding print_round
print_round-in true p e = rw e refl
print_round-in false p e = rw e refl

pub to_int-small : (n : ℕ) → n < 2 ^ 31 → to_int n ≡ pos n
to_int-small n h =
    let low : n % 2 ^ 32 ≡ n = omega arith in
    let small : ltb n (2 ^ 31) ≡ true = ground arith in rw (low, small) refl

-- A scalar child is written at once.
pub scalar-LeadsTo :
    (written str : List ℕ) (f : Frame) (fathers : List Frame)
    → LeadsTo
        (more (written ++ str) (record { curr = f; fathers = fathers }))
        (written ++ str)
        (record { curr = f; fathers = fathers })
scalar-LeadsTo written str f fathers = leads_to here (sym (append-nil (written ++ str)))

-- A map or an array that is closed under its father.
pub closed-LeadsTo :
    (written str : List ℕ) (p : Place) (f : Frame) (fathers : List Frame)
    → Closes p (f ∷ fathers) str
    → LeadsTo (more written p) (written ++ str) (record { curr = f; fathers = fathers })
unfolding leave
closed-LeadsTo written str p f fathers c =
    leads_to (Prints-trans c.printed (turn c.leaves here (sym (append-nil c.back))) c.text_of) refl

-- The type of a node whatever its flag is.
pub flagged-type :
    (isvalue : Bool) (datatype : ℕ)
    → datatype < 6
    → flagged isvalue datatype % elem_value ≡ datatype
flagged-type true datatype h = omega arith
flagged-type false datatype h = omega arith

pub scalar_child :
    (i : Info) (kids : Nodes) (written str : List ℕ) (f : Frame) (fathers : List Frame)
    → json_get_type i < elem_map
    → scalar_text i ≡ some str
    → LeadsTo
        (print_child written f fathers (node i kids))
        (written ++ str)
        (record { curr = f; fathers = fathers })
unfolding print_child
scalar_child i kids written str f fathers h e =
    let no_map : (json_get_type i == elem_map) ≡ false = ground arith in
    let no_array : (json_get_type i == elem_array) ≡ false = ground arith in
    rw (no_map, no_array, e) (scalar-LeadsTo written str f fathers)

pub nested_child :
    (named : Bool) (i : Info) (kids : Nodes) (written str : List ℕ) (f : Frame)
    (fathers : List Frame)
    → json_get_type i ≡ kind_of named
    → Closes (record { curr = enter (node i kids); fathers = f ∷ fathers }) (f ∷ fathers) str
    → LeadsTo
        (print_child written f fathers (node i kids))
        (written ++ str)
        (record { curr = f; fathers = fathers })
unfolding print_child
nested_child true i kids written str f fathers t c = rw t (closed-LeadsTo written str _ f fathers c)
nested_child false i kids written str f fathers t c =
    rw t (closed-LeadsTo written str _ f fathers c)

pub scalar_text-string :
    (i : Info)
    → json_get_type i ≡ elem_string
    → FitsIn 512 i.value_str
    → scalar_text i ≡ some (quoted i.value_str)
unfolding scalar_text
scalar_text-string i e h = rw (e, in_quotes-FitsIn 512 i.value_str h) refl

pub scalar_text-number :
    (i : Info)
    → json_get_type i ≡ elem_num
    → i.value < 2 ^ 31
    → scalar_text i ≡ some (itoa (pos i.value))
unfolding scalar_text
scalar_text-number i e h = rw (e, to_int-small i.value h) refl

pub scalar_text-flag :
    (i : Info) (b : Bool)
    → json_get_type i ≡ elem_bool
    → i.value ≡ (if b then 1 else 0)
    → scalar_text i ≡ some (if b then codes "true" else codes "false")
unfolding scalar_text
scalar_text-flag i true e v = rw (e, v) refl
scalar_text-flag i false e v = rw (e, v) refl

-- The first member and the others of a map or an array.
abbrev pub at_member : Info → Nodes → ℕ → Nodes → List Frame → Place
at_member i kids k left fathers = record {
  curr = record { info = i; kids = kids; comp_no = k; left = left };
  fathers = fathers;
}

pub print_in-empty :
    (named : Bool) (i : Info) (kids : Nodes) (fathers : List Frame)
    → i.elem_no ≡ 0
    → print_in named (at_member i kids 0 kids fathers)
      ≡ leave (opening named ∷ closing named ∷ []) fathers
unfolding print_in
print_in-empty named i kids fathers e = rw e refl

pub print_in-first :
    (named : Bool) (i : Info) (kids : Nodes) (fathers : List Frame)
    → 0 < i.elem_no
    → print_in named (at_member i kids 0 kids fathers)
      ≡ next_child named
          (opening named ∷ [])
          (opening named ∷ [])
          (at_member i kids 0 kids fathers).curr
          fathers
          kids
unfolding print_in
print_in-first named i kids fathers h =
    let some_kids : (i.elem_no == 0) ≡ false = ground arith in rw some_kids refl

pub print_in-next :
    (named : Bool) (i : Info) (kids : Nodes) (k : ℕ) (left : Nodes) (fathers : List Frame)
    → 0 < k
    → k < i.elem_no
    → print_in named (at_member i kids k left fathers)
      ≡ next_child named [] (b',' ∷ []) (at_member i kids k left fathers).curr fathers left
unfolding print_in
print_in-next named i kids k left fathers h l =
    let some_kids : (i.elem_no == 0) ≡ false = ground arith in
    let begun : (k == 0) ≡ false = ground arith in
    let not_all : (k == i.elem_no) ≡ false = ground arith in rw (some_kids, begun, not_all) refl

pub print_in-last :
    (named : Bool) (i : Info) (kids : Nodes) (k : ℕ) (left : Nodes) (fathers : List Frame)
    → 0 < k
    → k ≡ i.elem_no
    → print_in named (at_member i kids k left fathers) ≡ leave (closing named ∷ []) fathers
unfolding print_in
print_in-last named i kids k left fathers h e =
    let some_kids : (i.elem_no == 0) ≡ false = ground arith in
    let begun : (k == 0) ≡ false = ground arith in
    let all : (k == i.elem_no) ≡ true = ground arith in rw (some_kids, begun, all) refl
