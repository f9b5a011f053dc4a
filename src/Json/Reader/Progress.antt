-- ===== src/Json/Reader/Progress.antt =====
-- Each round of the reader takes a character at least, so the loop ends within its fuel.
use cube.Prelude.{
  ℕ, zero, suc, ◌+◌, ◌-◌, ◌≤◌, ◌<◌, ◌≡◌, refl, Bool, true, false, not, ◌||◌, some, List, [], ◌∷◌, ℤ,
  pos, negsuc, leb, ltb, ◌==◌, if◌then◌else◌, length, drop, get_or, digest_size, arith,
}
use cube.Json.{
  Info, blank, Node, node, json_get_type, elem_null, elem_num, elem_bool, elem_map, elem_array,
}
use cube.MessageQueue.{enomem}
use cube.Json.Lexer.{
  is_split_char, is_number, json_get_strvalue, json_get_numvalue, json_get_boolvalue, skip_ignored,
}
use cube.Json.Reader.{
  Room, opened_child, through_null, null_access, Focus, Outcome, returned, solved, overflow, Round,
  go, ended, failed, overrun, Mode, map_mode, array_mode, scalar, string_child, child_value,
  named_value, child_name, close_curr, with_child, at_root, in_map, in_array, one_round, rounds,
  start, json_solve_str, overruns,
}
use cube.Json.Reader.Taken.{
  Took, length-drop_le, length-drop_lt, json_get_strvalue-Took, json_get_numvalue-Took,
  json_get_boolvalue-Took,
}

-- A round on a text of this length leaves a shorter one, if it goes on.
pub data Shrinks (n : ℕ) : Round → Type 0 where
  goes : {str : List ℕ} {f : Focus} → length str < n → Shrinks n (go str f)
  ends : {str : List ℕ} {m : Node} → Shrinks n (ended str m)
  fails : {status : ℤ} → Shrinks n (failed status)
  overran : Shrinks n overrun
  stops : Shrinks n through_null

-- From the lexers to the rounds.
Shrinks-if :
    (b : Bool) {n : ℕ} {x y : Round}
    → (b ≡ true → Shrinks n x)
    → (b ≡ false → Shrinks n y)
    → Shrinks n (if b then x else y)
Shrinks-if true p q = p refl
Shrinks-if false p q = q refl

Shrinks-le : (m n : ℕ) {r : Round} → m ≤ n → Shrinks m r → Shrinks n r
Shrinks-le m n h (goes l) = goes (omega arith)
Shrinks-le m n h ends = ends
Shrinks-le m n h fails = fails
Shrinks-le m n h overran = overran
Shrinks-le m n h stops = stops

scalar-Shrinks :
    (room : Room) (datatype : ℕ) (m : Mode) (child : Info) (str : List ℕ) (f : Focus) (r : ℤ × ℕ)
    → Took str r.0
    → Shrinks (length str) (scalar room datatype m child str f r)
unfolding scalar
scalar-Shrinks room datatype m child str f (negsuc e, value) t = fails
scalar-Shrinks room datatype m child str f (pos ret, value) t =
    Shrinks-if (leb digest_size ret) (λ _. fails)
      (λ _. Shrinks-if room.child (λ _. goes (length-drop_lt ret str t.0 t.1)) (λ _. stops))

string_child-Shrinks :
    (room : Room) (m : Mode) (child : Info) (str : List ℕ) (f : Focus) (r : ℤ × List ℕ)
    → Took str r.0
    → Shrinks (length str) (string_child room m child str f r)
unfolding string_child
string_child-Shrinks room m child str f (negsuc e, text) t =
    Shrinks-if (overruns (negsuc e, text)) (λ _. overran) (λ _. fails)
string_child-Shrinks room m child str f (pos ret, text) t =
    Shrinks-if (overruns (pos ret, text)) (λ _. overran)
      (λ _.
        Shrinks-if (ltb m.longest ret) (λ _. fails)
          (λ _.
            Shrinks-if (not room.child) (λ _. stops)
              (λ _.
                Shrinks-if (not room.text) (λ _. fails)
                  (λ _. goes (length-drop_lt ret str t.0 t.1)))))

-- A round that takes the character `c`.
length-drop_char :
    (str : List ℕ) (c : ℕ) → (get_or str 0 0 == c) ≡ true → 0 < c → length (drop 1 str) < length str
length-drop_char [] c e h = absurd (ground arith)
length-drop_char (d ∷ str) c e h = omega arith

opened_child-Shrinks :
    (room : Room) {n : ℕ} (str : List ℕ) (f : Focus) (child : Info)
    → length str < n
    → Shrinks n (opened_child room str f child)
unfolding opened_child
opened_child-Shrinks room str f child h = Shrinks-if room.child (λ _. goes h) (λ _. ends)

child_value-Shrinks :
    (room : Room) (m : Mode) (child : Info) (str : List ℕ) (f : Focus)
    → Shrinks (length str) (child_value room m child str f)
unfolding child_value
child_value-Shrinks room m child str f =
    let c = get_or str 0 0 in
    Shrinks-if (c == b'{')
      (λ e. opened_child-Shrinks room (drop 1 str) f _ (length-drop_char str b'{' e (omega arith)))
      (λ _.
        Shrinks-if (c == b'[')
          (λ e.
            opened_child-Shrinks room (drop 1 str) f _ (length-drop_char str b'[' e (omega arith)))
          (λ _.
            Shrinks-if (c == b'"')
              (λ _.
                string_child-Shrinks room m child str f (json_get_strvalue str)
                  (json_get_strvalue-Took str))
              (λ _.
                Shrinks-if ((if m.signed then c == b'-' else false) || is_number c)
                  (λ _.
                    scalar-Shrinks room elem_num m child str f (json_get_numvalue str)
                      (json_get_numvalue-Took str))
                  (λ _.
                    scalar-Shrinks room elem_bool m child str f (json_get_boolvalue str)
                      (json_get_boolvalue-Took str)))))

length-skip_ignored : (str : List ℕ) → length (skip_ignored str) ≤ length str
unfolding skip_ignored
length-skip_ignored [] = omega arith
length-skip_ignored (c ∷ str) = ground (arith, length-skip_ignored str)

named_value-Shrinks :
    (room : Room) (name str : List ℕ) (f : Focus)
    → Shrinks (length str) (named_value room name str f)
unfolding named_value
named_value-Shrinks room name str f =
    let left = skip_ignored (drop 1 (skip_ignored str)) in
    Shrinks-if (get_or (skip_ignored str) 0 0 == b':')
      (λ _.
        Shrinks-le (length left) (length str)
          (omega (
            arith,
            length-skip_ignored (drop 1 (skip_ignored str)),
            length-drop_le 1 (skip_ignored str),
            length-skip_ignored str,
          ))
          (child_value-Shrinks room map_mode (record blank { name = name }) left f))
      (λ _. fails)

child_name-Shrinks :
    (room : Room) (str : List ℕ) (f : Focus) (r : ℤ × List ℕ)
    → Took str r.0
    → Shrinks (length str) (child_name room str f r)
unfolding child_name
child_name-Shrinks room str f (negsuc e, text) t =
    Shrinks-if (overruns (negsuc e, text)) (λ _. overran) (λ _. fails)
child_name-Shrinks room str f (pos ret, text) t =
    Shrinks-if (overruns (pos ret, text)) (λ _. overran)
      (λ _.
        Shrinks-if (leb digest_size ret) (λ _. fails)
          (λ _.
            Shrinks-if room.child
              (λ _.
                Shrinks-le (length (drop ret str)) (length str) (length-drop_le ret str)
                  (named_value-Shrinks room text (drop ret str) f))
              (λ _. stops)))

close_curr-Shrinks :
    (n : ℕ) (str : List ℕ) (f : Focus) → length str < n → Shrinks n (close_curr str f)
unfolding close_curr
close_curr-Shrinks n str f h =
    elim f.fathers
      as (λ fathers. Shrinks n (elim fathers [
        | [] ↦ ended str (node f.curr.info f.curr.kids)
        | father ∷ fathers ↦
            go str (record {
              curr = with_child father (node f.curr.info f.curr.kids);
              fathers = fathers;
            })
      ])) [ [] ↦ ends | father ∷ fathers ↦ goes h ]

at_root-Shrinks :
    (c : ℕ) (str : List ℕ) (f : Focus) → Shrinks (length (c ∷ str)) (at_root (c ∷ str) f)
unfolding at_root
at_root-Shrinks c str f =
    Shrinks-if (c == b'{') (λ _. goes (omega arith))
      (λ _. Shrinks-if (c == b'[') (λ _. goes (omega arith)) (λ _. fails))

in_map-Shrinks :
    (room : Room) (c : ℕ) (str : List ℕ) (f : Focus)
    → Shrinks (length (c ∷ str)) (in_map room (c ∷ str) f)
unfolding in_map
in_map-Shrinks room c str f =
    Shrinks-if (c == b'}') (λ _. close_curr-Shrinks (length (c ∷ str)) str f (omega arith))
      (λ _.
        Shrinks-if (c == b',') (λ _. goes (omega arith))
          (λ _.
            Shrinks-if (c == b'"')
              (λ _.
                child_name-Shrinks room (c ∷ str) f (json_get_strvalue (c ∷ str))
                  (json_get_strvalue-Took (c ∷ str)))
              (λ _. fails)))

in_array-Shrinks :
    (room : Room) (c : ℕ) (str : List ℕ) (f : Focus)
    → Shrinks (length (c ∷ str)) (in_array room (c ∷ str) f)
unfolding in_array
in_array-Shrinks room c str f =
    Shrinks-if (c == b']') (λ _. close_curr-Shrinks (length (c ∷ str)) str f (omega arith))
      (λ _.
        Shrinks-if (c == b',') (λ _. goes (omega arith))
          (λ _. child_value-Shrinks room array_mode blank (c ∷ str) f))

pub one_round-Shrinks :
    (room : Room) (str : List ℕ) (f : Focus) → Shrinks (length str) (one_round room str f)
unfolding one_round
one_round-Shrinks room [] f = ends
one_round-Shrinks room (c ∷ str) f =
    let taken : length str < length (c ∷ str) = omega arith in
    let datatype = json_get_type f.curr.info in
    Shrinks-if (c == 0) (λ _. ends)
      (λ _.
        Shrinks-if (is_split_char c) (λ _. goes taken)
          (λ _.
            Shrinks-if (datatype == elem_null) (λ _. at_root-Shrinks c str f)
              (λ _.
                Shrinks-if (datatype == elem_map) (λ _. in_map-Shrinks room c str f)
                  (λ _.
                    Shrinks-if (datatype == elem_array) (λ _. in_array-Shrinks room c str f)
                      (λ _. fails)))))

rounds_total :
    (memory : ℕ → Room) (fuel size : ℕ) (str : List ℕ) (f : Focus)
    → length str < fuel
    → (o : Outcome) × (rounds memory fuel size str f ≡ some o)
unfolding rounds
rounds_total memory zero size str f h = absurd (omega arith)
rounds_total memory (suc fuel) size str f h =
    by_round (λ str' f' l. rounds_total memory fuel size str' f' (omega arith))
      (one_round (memory (length str)) str f) (one_round-Shrinks (memory (length str)) str f)
  where
    by_round :
        ((str' : List ℕ) (f' : Focus)
          → length str' < length str
          → (o : Outcome) × (rounds memory fuel size str' f' ≡ some o))
        → (r : Round) → Shrinks (length str) r
        → (o : Outcome) × ((elim r [
          | go str' f' ↦ rounds memory fuel size str' f'
          | ended str' n ↦ some (solved (size - length str') n)
          | failed status ↦ some (returned status)
          | overrun ↦ some overflow
          | through_null ↦ some null_access
        ])
            ≡ some o)
    by_round next (go str' f') (goes l) = next str' f' l
    by_round next (ended str' n) s = (solved (size - length str') n, refl)
    by_round next (failed status) s = (returned status, refl)
    by_round next overrun s = (overflow, refl)
    by_round next through_null s = (null_access, refl)

-- `json_solve_str` ends on every text, whatever memory it gets: it returns a status, or a tree with the
-- number of characters that it has read, or it writes behind its buffer or through NULL.
pub json_solve_str_total :
    (for_root : Bool) (memory : ℕ → Room) (str : List ℕ)
    → (o : Outcome) × (json_solve_str for_root memory str ≡ some o)
unfolding json_solve_str
json_solve_str_total false memory str = (returned enomem, refl)
json_solve_str_total true memory str =
    rounds_total memory (length str + 1) (length str) str start (omega arith)
