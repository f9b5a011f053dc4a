-- ===== src/Json/Reader/RoundTrip.antt =====
-- The reader of json.c on the text of a value: the rounds it takes and the tree it makes.
use cube.Prelude.{
  ℕ, ◌+◌, ◌-◌, ◌≤◌, ◌≡◌, refl, ap, subst, ◌∙◌, Bool, true, false, not, some, List, [], ◌∷◌, ◌++◌,
  arith, if◌then◌else◌, length, length-append, append_assoc,
}
use cube.Json.{Info, Node, node, nil, blank, json_get_type, json_set_type, elem_map, elem_array}
use cube.Json.Spec.{
  Value, Members, string, number, flag, end, member, text, inner, quoted, count, flagged, tree,
  trees, IsReadable, AreReadable, IsName, IsDocument, of_map, of_array,
}
use cube.Json.Lexer.{is_split_char, is_ignore_char}
use cube.Json.Reader.{
  Room, enough, Open, Focus, solved, go, ended, Mode, child_value, close_curr, add_child,
  open_child, at_root, in_map, in_array, one_round, start, json_solve_str,
}
use cube.Json.Reader.Lexing.{Follows, comma, brace, bracket, Starts, text-Starts}
use cube.Json.Reader.Steps.{
  Steps, here, step, Leads, leads, Steps-trans, Steps-Leads, adds, grown, adds-trees, rounds-Steps,
}
use cube.Json.Reader.Values.{
  mode_of, kind_of, closing, longest, string-reads, number-reads, flag-reads, close-reads,
  comma-reads, item-reads, name-reads,
}

-- What follows a member.
inner-Follows :
    (named : Bool) (ms : Members) (rest : List ℕ)
    → Follows (inner named false ms ++ closing named ∷ rest)
unfolding inner
inner-Follows true end rest = brace
inner-Follows false end rest = bracket
inner-Follows true (member name v ms) rest = comma
inner-Follows false (member name v ms) rest = comma

-- The start of a member.
member-reads :
    (named : Bool) (name str : List ℕ) (f : Focus)
    → json_get_type f.curr.info ≡ kind_of named
    → (if named then IsName name else (length name ≡ 0))
    → Starts str
    → one_round enough ((if named then quoted name ++ b':' ∷ [] else []) ++ str) f
      ≡ child_value enough (mode_of named) (record blank { name = name }) str f
member-reads true name str f e n s =
    ap (λ l. one_round enough l f) (append_assoc (quoted name) (b':' ∷ []) str)
    ∙ name-reads name str f e n s
member-reads false [] str f e n s = item-reads str f e s
member-reads false (c ∷ name) str f e n s = absurd (omega arith)

after_comma :
    (named first : Bool) (name : List ℕ) (v : Value) (ms : Members) (tail : List ℕ) {str : List ℕ}
    {f f₁ : Focus}
    → Steps (inner named true (member name v ms) ++ tail) f str f₁
    → Steps (inner named first (member name v ms) ++ tail) f str f₁
unfolding inner
after_comma named true name v ms tail s = s
after_comma named false name v ms tail s = step (comma-reads _ _) s

-- The end of a map or an array behind its members.
closed-Steps :
    (named : Bool) (ms : Members) (rest : List ℕ) (f : Focus) (i : Info)
    → json_get_type i ≡ kind_of named
    → i.elem_no ≡ 0
    → Steps
        (inner named true ms ++ closing named ∷ rest)
        (open_child f i)
        (closing named ∷ rest)
        (record (open_child f i) { curr = adds (not named) (record { info = i; kids = nil }) ms })
    → Steps
        ((inner named true ms ++ closing named ∷ []) ++ rest)
        (open_child f i)
        rest
        (add_child f (node (record i { elem_no = count ms }) (trees (not named) ms)))
closed-Steps named ms rest f i t e s =
    rw (append_assoc (inner named true ms) (closing named ∷ []) rest) (
      Steps-trans s (
        rw (adds-trees (not named) i ms e) (
          step
            (close-reads named rest (grown i (count ms) (trees (not named) ms)) f.curr f.fathers t)
            here)))

-- The text of a member and what follows it, taken apart.
member-append :
    (named : Bool) (name : List ℕ) (v : Value) (ms : Members) (rest : List ℕ)
    → inner named true (member name v ms) ++ rest
      ≡ (if named then quoted name ++ b':' ∷ [] else [])
        ++ (text v ++ (inner named false ms ++ rest))
unfolding inner
member-append named name v ms rest = simp append_assoc

abbrev pub member_info : Bool → List ℕ → ℕ → Info
member_info isvalue name datatype = record blank {
  name = name;
  elem_type = flagged isvalue datatype;
}

pub flagged-kind :
    (isvalue named : Bool) (name : List ℕ)
    → json_get_type (member_info isvalue name (kind_of named)) ≡ kind_of named
flagged-kind true true name = refl
flagged-kind true false name = refl
flagged-kind false true name = refl
flagged-kind false false name = refl

mutual
  unfolding text tree child_value json_set_type adds

  value-Leads :
      (v : Value) (m : Mode) (name rest : List ℕ) (f : Focus)
      → 514 ≤ m.longest
      → IsReadable v
      → Follows rest
      → Leads
          (child_value enough m (record blank { name = name }) (text v ++ rest) f)
          rest
          (add_child f (tree m.isvalue name v))
  value-Leads (string s) m name rest f l r follows =
      rw (string-reads m name s rest f l r) (leads here)
  value-Leads (number n) m name rest f l r follows =
      rw (number-reads m name n rest f r follows) (leads here)
  value-Leads (flag true) m name rest f l r follows = rw (flag-reads m name rest f) (leads here)
  value-Leads (flag false) m name rest f l r follows = absurd r
  value-Leads (Value.map ms) m name rest f l r follows =
      let i = member_info m.isvalue name elem_map in
      let t = flagged-kind m.isvalue true name in
      leads (
        closed-Steps true ms rest f i t refl (members-Steps true true ms rest (open_child f i) r t))
  value-Leads (Value.array ms) m name rest f l r follows =
      let i = member_info m.isvalue name elem_array in
      let t = flagged-kind m.isvalue false name in
      leads (
        closed-Steps false ms rest f i t refl
          (members-Steps false true ms rest (open_child f i) r t))

  members-Steps :
      (named first : Bool) (ms : Members) (rest : List ℕ) (f : Focus)
      → AreReadable named ms
      → json_get_type f.curr.info ≡ kind_of named
      → Steps
          (inner named first ms ++ closing named ∷ rest)
          f
          (closing named ∷ rest)
          (record f { curr = adds (not named) f.curr ms })
  members-Steps named first end rest f r e = here
  members-Steps named first (member name v ms) rest f r e =
      let tail = inner named false ms ++ closing named ∷ rest in
      after_comma named first name v ms (closing named ∷ rest) (
        rw (member-append named name v ms (closing named ∷ rest)) (
          Steps-trans
            (Steps-Leads (member-reads named name (text v ++ tail) f e r.0 (text-Starts v tail r.1))
              (value-Leads v (mode_of named) name tail f (longest named) r.1
                (inner-Follows named ms rest)))
            (members-Steps named false ms rest (add_child f (tree (not named) name v)) r.2 e)))

-- The root, while its members are read and behind them.
abbrev pub root_focus : Open → Focus
root_focus o = record { curr = o; fathers = [] }

root-Steps :
    (named : Bool) (ms : Members) (rest : List ℕ)
    → AreReadable named ms
    → (let i = member_info true [] (kind_of named) in
        Steps
          (inner named true ms ++ closing named ∷ rest)
          (root_focus (record { info = i; kids = nil }))
          (closing named ∷ rest)
          (root_focus (grown i (count ms) (trees (not named) ms))))
root-Steps named ms rest r =
    let i = member_info true [] (kind_of named) in
    let opened : Open = record { info = i; kids = nil } in
    subst
      (λ o.
        Steps (inner named true ms ++ closing named ∷ rest) (root_focus opened)
          (closing named ∷ rest) (root_focus o))
      (adds-trees (not named) i ms refl)
      (members-Steps named true ms rest (root_focus opened) r (flagged-kind true named []))

-- The first round, and the last one.
pub open-reads :
    (named : Bool) (str : List ℕ)
    → one_round enough ((if named then b'{' else b'[') ∷ str) start
      ≡ go str (root_focus (record { info = member_info true [] (kind_of named); kids = nil }))
unfolding one_round at_root json_set_type is_split_char is_ignore_char
open-reads true str = refl
open-reads false str = refl

end-reads :
    (named : Bool) (rest : List ℕ) (o : Open)
    → json_get_type o.info ≡ kind_of named
    → one_round enough (closing named ∷ rest) (root_focus o) ≡ ended rest (node o.info o.kids)
unfolding one_round in_map in_array close_curr is_split_char is_ignore_char
end-reads true rest o e = rw e refl
end-reads false rest o e = rw e refl

abbrev whole_node : Bool → Members → Node
whole_node named ms =
    node (record (member_info true [] (kind_of named)) { elem_no = count ms })
      (trees (not named) ms)

abbrev opening : Bool → ℕ
opening named = if named then b'{' else b'['

-- With memory for the root and for each round.
module _ (memory : ℕ → Room) (plenty : (n : ℕ) → memory n ≡ enough) where
  whole-reads :
      (named : Bool) (ms : Members) (rest str : List ℕ)
      → AreReadable named ms
      → str ≡ opening named ∷ inner named true ms ++ closing named ∷ rest
      → json_solve_str true memory str
        ≡ some (solved (length str - length rest) (whole_node named ms))
  unfolding json_solve_str
  whole-reads named ms rest str r e =
      let behind = inner named true ms ++ closing named ∷ rest in
      let opened : one_round enough (opening named ∷ behind) start
          ≡ go behind
              (root_focus (record { info = member_info true [] (kind_of named); kids = nil })) =
        open-reads named behind in
      rounds-Steps memory plenty (length str + 1) (length str) {str = str} (omega arith)
        (step (ap (λ l. one_round enough l start) e ∙ opened) (root-Steps named ms rest r))
        (end-reads named rest
          (grown (member_info true [] (kind_of named)) (count ms) (trees (not named) ms))
          (flagged-kind true named []))

  read-whole :
      (named : Bool) (ms : Members) (rest : List ℕ)
      → AreReadable named ms
      → (let str = opening named ∷ inner named true ms ++ closing named ∷ [] in
          json_solve_str true memory (str ++ rest)
          ≡ some (solved (length str) (whole_node named ms)))
  read-whole named ms rest r =
      let str = opening named ∷ inner named true ms ++ closing named ∷ [] in
      whole-reads named ms rest (str ++ rest) r
        (ap (◌∷◌ (opening named)) (append_assoc (inner named true ms) (closing named ∷ []) rest))
      ∙ ap (λ k. some (solved k (whole_node named ms))) (omega (arith, length-append str rest))

  -- With memory for the root and for each round `json_solve_str` reads the text of every readable map
  -- or array, whatever follows it, to its end, and makes the tree of the value.
  pub json_solve_str-text :
      (v : Value) (rest : List ℕ)
      → IsDocument v
      → IsReadable v
      → json_solve_str true memory (text v ++ rest)
        ≡ some (solved (length (text v)) (tree true [] v))
  unfolding text tree
  json_solve_str-text _ rest (of_map {ms = ms}) r = read-whole true ms rest r
  json_solve_str-text _ rest (of_array {ms = ms}) r = read-whole false ms rest r
