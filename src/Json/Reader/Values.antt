-- ===== src/Json/Reader/Values.antt =====
-- Single rounds of the reader of json.c on the text of a value.
use cube.Prelude.{
  ℕ, ◌+◌, ◌≤◌, ◌<◌, ◌≡◌, refl, Bool, true, false, not, List, [], ◌∷◌, ◌++◌, pos, leb, ltb, ◌==◌,
  arith, ◌||◌, if◌then◌else◌, length, length-append, drop, drop-length_append, Bool-cases, inl, inr,
  append_assoc, digest_size, codes,
}
use cube.Number.{itoa, int_digits}
use cube.Number.Digits.{IsDigit, IsDecimal, itoa-IsDecimal}
use cube.Strings.{memcmp, memcmp_loop}
use cube.Json.{node, blank, json_get_type, json_set_type, elem_num, elem_map, elem_array}
use cube.Json.Spec.{string, number, flag, quoted, tree, IsReadable, IsName}
use cube.Json.Lexer.{
  is_number, is_split_char, is_ignore_char, json_get_strvalue, json_get_numvalue,
  json_get_boolvalue,
}
use cube.Json.Reader.{
  enough, Open, Focus, go, Mode, map_mode, array_mode, scalar, string_child, child_value,
  named_value, child_name, close_curr, with_child, add_child, in_map, in_array, one_round,
}
use cube.Json.Reader.Lexing.{
  Follows, Starts, starts, json_get_strvalue-quoted, json_get_numvalue-itoa, skip_ignored-Starts,
}

abbrev pub mode_of : Bool → Mode
mode_of named = record { isvalue = not named; longest = if named then 770 else 514; signed = named }

abbrev pub kind_of : Bool → ℕ
kind_of named = if named then elem_map else elem_array

abbrev pub closing : Bool → ℕ
closing named = if named then b'}' else b']'

pub longest : (named : Bool) → 514 ≤ (mode_of named).longest
longest true = omega arith
longest false = omega arith

-- A string as the value of a child.
pub string_child-reads :
    (m : Mode) (name s rest : List ℕ) (f : Focus)
    → 514 ≤ m.longest
    → length s < 512
    → string_child enough m
        (record blank { name = name })
        (quoted s ++ rest)
        f
        (pos (length s + 2), s)
      ≡ go rest (add_child f (tree m.isvalue name (string s)))
unfolding string_child tree json_set_type
string_child-reads m name s rest f l h =
    let room : leb 512 (length s) ≡ false = ground arith in
    let fits : ltb m.longest (length s + 2) ≡ false = ground arith in
    let taken : drop (length s + 2) (quoted s ++ rest) ≡ rest =
      drop-length_append (quoted s) rest (length s + 2)
        (omega (arith, length-append s (b'"' ∷ []))) in
    rw (room, fits, taken) refl

pub string-reads :
    (m : Mode) (name s rest : List ℕ) (f : Focus)
    → 514 ≤ m.longest
    → IsReadable (string s)
    → child_value enough m (record blank { name = name }) (quoted s ++ rest) f
      ≡ go rest (add_child f (tree m.isvalue name (string s)))
unfolding child_value
string-reads m name s rest f l r =
    let lexed : json_get_strvalue (quoted s ++ rest) ≡ (pos (length s + 2), s) =
      rw (append_assoc s (b'"' ∷ []) rest)
        (json_get_strvalue-quoted s rest r.0 (omega (arith, r.1))) in
    rw lexed (string_child-reads m name s rest f l r.1)

-- A number. `str` is its text.
pub scalar-reads :
    (m : Mode) (name str : List ℕ) (n : ℕ) (rest : List ℕ) (f : Focus)
    → length str ≤ int_digits
    → scalar enough elem_num m (record blank { name = name }) (str ++ rest) f (pos (length str), n)
      ≡ go rest (add_child f (tree m.isvalue name (number n)))
unfolding scalar tree json_set_type
scalar-reads m name str n rest f h =
    let short : leb digest_size (length str) ≡ false = ground arith in
    rw (short, drop-length_append str rest (length str) refl) refl

pub decimal-reads :
    (m : Mode) (name str : List ℕ) (n : ℕ) (rest : List ℕ) (f : Focus)
    → IsDecimal int_digits n str
    → json_get_numvalue (str ++ rest) ≡ (pos (length str), n)
    → child_value enough m (record blank { name = name }) (str ++ rest) f
      ≡ go rest (add_child f (tree m.isvalue name (number n)))
unfolding child_value is_number
decimal-reads m name [] n rest f d e = absurd (omega (arith, d.some_digit))
decimal-reads m name (c ∷ str) n rest f d e =
    let digit : IsDigit c = d.digits.0 in
    let no_map : (c == b'{') ≡ false = ground arith in
    let no_array : (c == b'[') ≡ false = ground arith in
    let no_string : (c == b'"') ≡ false = ground arith in
    let low : leb b'0' c ≡ true = ground arith in
    let high : leb c b'9' ≡ true = ground arith in
    rw (no_map, no_array, no_string, low, high, or_true (if m.signed then c == b'-' else false), e)
      (scalar-reads m name (c ∷ str) n rest f d.short)
  where
    or_true : (b : Bool) → (b || true) ≡ true
    or_true true = refl
    or_true false = refl

pub number-reads :
    (m : Mode) (name : List ℕ) (n : ℕ) (rest : List ℕ) (f : Focus)
    → IsReadable (number n)
    → Follows rest
    → child_value enough m (record blank { name = name }) (itoa (pos n) ++ rest) f
      ≡ go rest (add_child f (tree m.isvalue name (number n)))
number-reads m name n rest f r follows =
    decimal-reads m name (itoa (pos n)) n rest f (itoa-IsDecimal n r)
      (json_get_numvalue-itoa n rest r follows)

pub flag-reads :
    (m : Mode) (name rest : List ℕ) (f : Focus)
    → child_value enough m (record blank { name = name }) (codes "true" ++ rest) f
      ≡ go rest (add_child f (tree m.isvalue name (flag true)))
unfolding child_value scalar tree json_set_type json_get_boolvalue memcmp memcmp_loop is_number
flag-reads m name rest f = elim (Bool-cases m.signed) [ inl e ↦ rw e refl | inr e ↦ rw e refl ]

-- The characters that open and close a map or an array.
pub close-reads :
    (named : Bool) (rest : List ℕ) (curr father : Open) (fathers : List Open)
    → json_get_type curr.info ≡ kind_of named
    → one_round enough (closing named ∷ rest) (record { curr = curr; fathers = father ∷ fathers })
      ≡ go rest (record { curr = with_child father (node curr.info curr.kids); fathers = fathers })
unfolding one_round in_map in_array close_curr is_split_char is_ignore_char
close-reads true rest curr father fathers e = rw e refl
close-reads false rest curr father fathers e = rw e refl

pub comma-reads : (rest : List ℕ) (f : Focus) → one_round enough (b',' ∷ rest) f ≡ go rest f
unfolding one_round is_split_char
comma-reads rest f = refl

-- A member of an array is read as it is.
pub item-reads :
    (str : List ℕ) (f : Focus)
    → json_get_type f.curr.info ≡ elem_array
    → Starts str
    → one_round enough str f ≡ child_value enough array_mode blank str f
unfolding one_round in_array
item-reads str f e (starts {c = c} nul split close more) = rw (nul, split, e, close, more) refl

-- The name of a member of a map, and the colon.
pub child_name-reads :
    (name str : List ℕ) (f : Focus)
    → IsName name
    → Starts str
    → child_name enough (quoted name ++ b':' ∷ str) f (pos (length name + 2), name)
      ≡ child_value enough map_mode (record blank { name = name }) str f
unfolding child_name named_value is_ignore_char
child_name-reads name str f n s =
    let room : leb 512 (length name) ≡ false = ground arith in
    let short : leb digest_size (length name + 2) ≡ false = ground arith in
    let taken : drop (length name + 2) (quoted name ++ b':' ∷ str) ≡ b':' ∷ str =
      drop-length_append (quoted name) (b':' ∷ str) (length name + 2)
        (omega (arith, length-append name (b'"' ∷ []))) in
    rw (room, short, taken, skip_ignored-Starts s) refl

pub name-reads :
    (name str : List ℕ) (f : Focus)
    → json_get_type f.curr.info ≡ elem_map
    → IsName name
    → Starts str
    → one_round enough (quoted name ++ b':' ∷ str) f
      ≡ child_value enough map_mode (record blank { name = name }) str f
unfolding one_round in_map is_split_char is_ignore_char
name-reads name str f e n s =
    let lexed : json_get_strvalue (quoted name ++ b':' ∷ str) ≡ (pos (length name + 2), name) =
      rw (append_assoc name (b'"' ∷ []) (b':' ∷ str))
        (json_get_strvalue-quoted name (b':' ∷ str) n.0 (omega (arith, n.1))) in
    rw (e, lexed) (child_name-reads name str f n s)
