-- ===== src/Json/Printer/Text.antt =====
-- What the printer of json.c writes for the tree of a value.
use cube.Prelude.{
  ℕ, ◌+◌, ◌<◌, ◌≡◌, refl, ap, ◌∙◌, subst, Bool, true, false, not, some, List, [], ◌∷◌, ◌++◌, pos,
  arith, length, if◌then◌else◌, codes, digest_size,
}
use cube.Number.{itoa}
use cube.Json.{
  Info, Node, Nodes, nil, cons, info_of, json_get_type, elem_num, elem_string, elem_bool, elem_map,
  elem_array,
}
use cube.Json.Spec.{
  Value, Members, string, number, flag, end, member, text, inner, quoted, count, tree, trees,
  name-tree, FitsIn, IsPrintable, ArePrintable, IsDocument, of_map, of_array,
}
use cube.Json.Printer.{
  Frame, enter, in_quotes, leave, print_child, name_text, next_child, opening, closing, weight,
  status_of, json_print_str,
}
use cube.Json.Printer.Progress.{enter-left}
use cube.Json.Printer.Rounds.{
  Prints, here, LeadsTo, Prints-trans, Prints-LeadsTo, print_rounds-Prints, in_quotes-FitsIn,
}
use cube.Json.Printer.Turns.{
  print_round-in, flagged-type, scalar_child, nested_child, scalar_text-string, scalar_text-number,
  scalar_text-flag, print_in-empty, print_in-first, print_in-next, print_in-last, Closes, kind_of,
  at_member,
}

abbrev named_text : Bool → List ℕ → List ℕ
named_text named name = if named then quoted name ++ b':' ∷ [] else []

name_text-tree :
    (named isvalue : Bool) (name : List ℕ) (v : Value)
    → (if named then FitsIn digest_size name else Unit)
    → name_text named (info_of (tree isvalue name v)) ≡ named_text named name
name_text-tree true isvalue name v h =
    ap (λ l. in_quotes l digest_size ++ b':' ∷ []) (name-tree isvalue name v)
    ∙ ap (λ l. l ++ b':' ∷ []) (in_quotes-FitsIn digest_size name h)
name_text-tree false isvalue name v h = refl

-- A child with its name, from what is known of its value.
child-LeadsTo :
    (named : Bool) (refusal written name : List ℕ) (v : Value) (f : Frame) (fathers : List Frame)
    (ns : Nodes)
    → (if named then FitsIn digest_size name else Unit)
    → ((written : List ℕ) (f : Frame)
        → LeadsTo
            (print_child written f fathers (tree (not named) name v))
            (written ++ text v)
            (record { curr = f; fathers = fathers }))
    → LeadsTo
        (next_child named refusal written f fathers (cons (tree (not named) name v) ns))
        (written ++ named_text named name ++ text v)
        (record { curr = record f { comp_no = f.comp_no + 1; left = ns }; fathers = fathers })
unfolding next_child
child-LeadsTo named refusal written name v f fathers ns h child =
    rw (name_text-tree named (not named) name v h)
      (child (written ++ named_text named name) (record f { comp_no = f.comp_no + 1; left = ns }))

mutual
  unfolding text tree

  value-LeadsTo :
      (v : Value) (isvalue : Bool) (name written : List ℕ) (f : Frame) (fathers : List Frame)
      → IsPrintable v
      → LeadsTo
          (print_child written f fathers (tree isvalue name v))
          (written ++ text v)
          (record { curr = f; fathers = fathers })
  value-LeadsTo (string s) isvalue name written f fathers h =
      let t = flagged-type isvalue elem_string (omega arith) in
      scalar_child _ nil written (quoted s) f fathers (omega (arith, t)) (scalar_text-string _ t h)
  value-LeadsTo (number n) isvalue name written f fathers h =
      let t = flagged-type isvalue elem_num (omega arith) in
      scalar_child _ nil written (itoa (pos n)) f fathers (omega (arith, t))
        (scalar_text-number _ t h)
  value-LeadsTo (flag b) isvalue name written f fathers h =
      let t = flagged-type isvalue elem_bool (omega arith) in
      scalar_child _ nil written (if b then codes "true" else codes "false") f fathers
        (omega (arith, t)) (scalar_text-flag _ b t refl)
  value-LeadsTo (Value.map ms) isvalue name written f fathers h =
      let t = flagged-type isvalue elem_map (omega arith) in
      nested_child true _ (trees false ms) written _ f fathers t
        (members-Closes true _ ms (f ∷ fathers) t refl h)
  value-LeadsTo (Value.array ms) isvalue name written f fathers h =
      let t = flagged-type isvalue elem_array (omega arith) in
      nested_child false _ (trees true ms) written _ f fathers t
        (members-Closes false _ ms (f ∷ fathers) t refl h)

  members-Closes :
      (named : Bool) (i : Info) (ms : Members) (fathers : List Frame)
      → json_get_type i ≡ kind_of named
      → i.elem_no ≡ count ms
      → ArePrintable named ms
      → Closes
          (at_member i (trees (not named) ms) 0 (trees (not named) ms) fathers)
          fathers
          (opening named ∷ inner named true ms ++ closing named ∷ [])
  members-Closes named i end fathers t e h = record {
    last = at_member i nil 0 nil fathers;
    front = [];
    back = opening named ∷ closing named ∷ [];
    printed = here;
    leaves =
        print_round-in named (at_member i nil 0 nil fathers) t
        ∙ print_in-empty named i nil fathers e;
    text_of = refl;
  }
  members-Closes named i (member name v ms) fathers t e h =
      let kids = trees (not named) (member name v ms) in
      let first = at_member i kids 0 kids fathers in
      let n = count ms + 1 in
      let last = at_member i kids n nil fathers in
      record {
        last = last;
        front = opening named ∷ inner named true (member name v ms);
        back = closing named ∷ [];
        printed =
            Prints-trans
              (Prints-LeadsTo
                (print_round-in named first t ∙ print_in-first named i kids fathers (omega arith))
                (child-LeadsTo named _ _ name v first.curr fathers (trees (not named) ms) h.0
                  (λ written f. value-LeadsTo v (not named) name written f fathers h.1)))
              (members-Prints named i kids (0 + 1) n ms fathers t (omega arith) (omega arith)
                (omega arith) h.2)
              refl;
        leaves =
            print_round-in named last t
            ∙ print_in-last named i kids n nil fathers (omega arith) (omega arith);
        text_of = refl;
      }

  members-Prints :
      (named : Bool) (i : Info) (kids : Nodes) (k n : ℕ) (ms : Members) (fathers : List Frame)
      → json_get_type i ≡ kind_of named
      → 0 < k
      → n ≡ k + count ms
      → n ≡ i.elem_no
      → ArePrintable named ms
      → Prints
          (at_member i kids k (trees (not named) ms) fathers)
          (inner named false ms)
          (at_member i kids n nil fathers)
  members-Prints named i kids k n end fathers t l e total h =
      let all : k ≡ n = omega arith in
      subst (λ j. Prints (at_member i kids k nil fathers) [] (at_member i kids j nil fathers)) all
        here
  members-Prints named i kids k n (member name v ms) fathers t l e total h =
      let left = trees (not named) (member name v ms) in
      let p = at_member i kids k left fathers in
      Prints-trans
        (Prints-LeadsTo
          (print_round-in named p t ∙ print_in-next named i kids k left fathers l (omega arith))
          (child-LeadsTo named _ _ name v p.curr fathers (trees (not named) ms) h.0
            (λ written f. value-LeadsTo v (not named) name written f fathers h.1)))
        (members-Prints named i kids (k + 1) n ms fathers t (omega arith) (omega arith) total h.2)
        refl

-- The walk over a whole tree that closes at its root.
json_print_str-Closes :
    (root : Node) (str : List ℕ)
    → Closes (record { curr = enter root; fathers = [] }) [] str
    → json_print_str root ≡ some (pos (length str), str)
unfolding json_print_str leave
json_print_str-Closes root str c =
    rw c.text_of
      (ap status_of (print_rounds-Prints (weight root) (enter-left root) c.printed c.leaves))

-- `json_print_str` of the tree of a printable map or array, with the flag of values or without it and
-- under any name, writes the text of the value and returns its length.
pub json_print_str-tree :
    (v : Value) (isvalue : Bool) (name : List ℕ)
    → IsDocument v
    → IsPrintable v
    → json_print_str (tree isvalue name v) ≡ some (pos (length (text v)), text v)
unfolding text tree
json_print_str-tree _ isvalue name (of_map {ms = ms}) h =
    json_print_str-Closes _ _
      (members-Closes true _ ms [] (flagged-type isvalue elem_map (omega arith)) refl h)
json_print_str-tree _ isvalue name (of_array {ms = ms}) h =
    json_print_str-Closes _ _
      (members-Closes false _ ms [] (flagged-type isvalue elem_array (omega arith)) refl h)
