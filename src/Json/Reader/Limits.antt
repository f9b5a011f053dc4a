-- ===== src/Json/Reader/Limits.antt =====
-- Where the reader of json.c gives something else than the text says.
use cube.Prelude.{
  ℕ, ◌+◌, ◌≤◌, ◌<◌, ◌≡◌, refl, subst, Bool, true, false, some, List, [], ◌∷◌, ◌++◌, ℤ, pos, negsuc,
  einval, leb, ◌==◌, arith, if◌then◌else◌, All, length, get_or, codes, append_assoc, digest_size,
}
use cube.Json.{nil}
use cube.Json.Spec.{quoted, IsPlain}
use cube.Json.Lexer.{json_get_strvalue, json_get_boolvalue, says, is_split_char, is_ignore_char}
use cube.Json.Reader.{
  Room, enough, Focus, returned, overflow, failed, overrun, string_child, child_value, child_name,
  in_map, in_array, one_round, json_solve_str,
}
use cube.Json.Reader.Lexing.{json_get_strvalue-quoted}
use cube.Json.Reader.Steps.{step, here, rounds-overrun, rounds-failed}
use cube.Json.Reader.RoundTrip.{open-reads, root_focus, member_info}
use cube.Json.Reader.Values.{kind_of}

-- A status of success comes with the value 1.
abbrev OneIfRead : ℤ × ℕ → Type 0
OneIfRead (pos n, value) = value ≡ 1
OneIfRead (negsuc e, value) = Unit

OneIfRead-if : (b : Bool) (x y : ℤ × ℕ) → OneIfRead x → OneIfRead y → OneIfRead (if b then x else y)
OneIfRead-if true x y p q = p
OneIfRead-if false x y p q = q

boolvalue-OneIfRead : (str : List ℕ) → OneIfRead (json_get_boolvalue str)
unfolding json_get_boolvalue
boolvalue-OneIfRead str =
    let c = get_or str 0 0 in
    OneIfRead-if (c == b't') _ _ (word (says str (codes "true") 4) 4) (
      OneIfRead-if (c == b'T') _ _ (words (says str (codes "True") 4) (says str (codes "TRUE") 4) 4)
        (OneIfRead-if (c == b'f') _ _ (word (says str (codes "false") 5) 5) (
          OneIfRead-if (c == b'F') _ _
            (words (says str (codes "False") 5) (says str (codes "FALSE") 5) 5) tt)))
  where
    word : (b : Bool) (n : ℕ) → OneIfRead (if b then (pos n, 1) else (einval, 0))
    word b n = OneIfRead-if b (pos n, 1) (einval, 0) refl tt

    words :
        (b d : Bool) (n : ℕ)
        → OneIfRead (if b then (pos n, 1) else if d then (pos n, 1) else (einval, 0))
    words b d n = OneIfRead-if b (pos n, 1) _ refl (word d n)

-- Whenever `json_get_boolvalue` accepts a text, the value that it stores is 1, for the words of
-- falsehood too.
pub json_get_boolvalue-true :
    (str : List ℕ) (n value : ℕ) → json_get_boolvalue str ≡ (pos n, value) → value ≡ 1
json_get_boolvalue-true str n value e = subst OneIfRead e (boolvalue-OneIfRead str)

lexed :
    (s rest : List ℕ)
    → All IsPlain s
    → length s < 1023
    → json_get_strvalue (quoted s ++ rest) ≡ (pos (length s + 2), s)
lexed s rest a h = rw (append_assoc s (b'"' ∷ []) rest) (json_get_strvalue-quoted s rest a h)

abbrev opened : Bool → Focus
opened named = root_focus (record { info = member_info true [] (kind_of named); kids = nil })

long_string-reads :
    (s rest : List ℕ)
    → All IsPlain s
    → 512 ≤ length s
    → length s < 1023
    → one_round enough (quoted s ++ rest) (opened false) ≡ overrun
unfolding one_round in_array child_value string_child is_split_char is_ignore_char
long_string-reads s rest a l h =
    let full : leb 512 (length s) ≡ true = ground arith in rw (lexed s rest a h, full) refl

-- A string of 512 to 1022 plain characters in an array is written behind `value_buffer`.
json_solve_str-long :
    (memory : ℕ → Room)
    → ((n : ℕ) → memory n ≡ enough)
    → (s rest : List ℕ) → All IsPlain s
    → 512 ≤ length s
    → length s < 1023
    → json_solve_str true memory (b'[' ∷ quoted s ++ rest) ≡ some overflow
unfolding json_solve_str
json_solve_str-long memory plenty s rest a l h =
    rounds-overrun memory plenty _ _ {str = b'[' ∷ quoted s ++ rest} (omega arith)
      (step (open-reads false (quoted s ++ rest)) here) (long_string-reads s rest a l h)

long_name-reads :
    (name rest : List ℕ)
    → All IsPlain name
    → 30 ≤ length name
    → length name < 512
    → one_round enough (quoted name ++ rest) (opened true) ≡ failed (pos (length name + 2))
unfolding one_round in_map child_name is_split_char is_ignore_char
long_name-reads name rest a l h =
    let room : leb 512 (length name) ≡ false = ground arith in
    let long : leb digest_size (length name + 2) ≡ true = ground arith in
    rw (lexed name rest a (omega arith), room, long) refl

-- At a name of 30 to 511 plain characters at the start of a map `json_solve_str` returns the number
-- of its characters and of its quotes, which is positive, and no tree.
pub json_solve_str-name :
    (memory : ℕ → Room)
    → ((n : ℕ) → memory n ≡ enough)
    → (name rest : List ℕ) → All IsPlain name
    → 30 ≤ length name
    → length name < 512
    → json_solve_str true memory (b'{' ∷ quoted name ++ rest)
      ≡ some (returned (pos (length name + 2)))
unfolding json_solve_str
json_solve_str-name memory plenty name rest a l h =
    rounds-failed memory plenty _ _ {str = b'{' ∷ quoted name ++ rest} (omega arith)
      (step (open-reads true (quoted name ++ rest)) here) (long_name-reads name rest a l h)
