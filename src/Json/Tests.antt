-- ===== src/Json/Tests.antt =====
-- A JSON value and its text, and the theorems at them.
use cube.Prelude.{
  not, ◌==◌, ℕ, zero, suc, ◌≡◌, refl, ◌++◌, List, [], ◌∷◌, true, false, some, codes, einval, pos, ℤ,
  arith, replicate, length, All,
}
use cube.Strings.{memcmp}
use cube.Json.{snoc, json_set_type, json_find_elem}
use cube.Json.Spec.{Value, Members, string, number, flag, end, member, text, tree, of_map, IsPlain}
use cube.Number.{itoa}
use cube.Json.Lexer.{
  is_split_char, is_number, is_value_end, json_get_strvalue, json_get_numvalue, json_get_boolvalue,
}
use cube.Json.Reader.{Room, enough, null_access, Outcome, json_solve_str, returned, solved}
use cube.Json.Reader.Progress.{json_solve_str_total}
use cube.Json.Reader.RoundTrip.{json_solve_str-text}
use cube.Json.Printer.{json_print_str, print_round}
use cube.Json.Printer.Progress.{json_print_str_total}
use cube.Json.Printer.Text.{json_print_str-tree}
use cube.Json.RoundTrip.{solve_print}
use cube.Json.Access.Members.{json_find_elem-member_of, member_of}

abbrev always : ℕ → Room
always n = enough

-- No memory for the child that is made where 27 characters are left.
abbrev once_short : ℕ → Room
once_short n = record enough { child = not (n == 27) }

abbrev some_members : Members
some_members = member (codes "a") (number 12) (
    member (codes "b")
      (Value.array
        (member [] (flag true) (member [] (Value.map end) (member [] (string (codes "x y")) end))))
      end)

abbrev some_value : Value
some_value = Value.map some_members

abbrev some_text : List ℕ
some_text = codes "{\"a\":12,\"b\":[true,{},\"x y\"]}"

text-some_value : text some_value ≡ some_text
unfolding text itoa
text-some_value = refl

-- The same value with spaces and line ends, and an escaped quotation mark.
spaced-reads :
    json_solve_str true always (codes " {\"a\" : 12 ,\"b\":[ true,{} \"x y\" ]} ")
    ≡ some (solved 34 (tree true [] some_value))
unfolding json_solve_str tree json_set_type json_get_strvalue json_get_numvalue json_get_boolvalue
    memcmp is_split_char is_number is_value_end snoc
spaced-reads = refl

number-fails : json_solve_str true always (codes "[12a]") ≡ some (returned einval)
unfolding json_solve_str json_set_type json_get_numvalue is_split_char is_number is_value_end
number-fails = refl

false-prints :
    json_print_str (tree false [] (Value.array (member [] (flag false) end)))
    ≡ some (pos 7, codes "[false]")
unfolding json_print_str tree print_round
false-prints = refl

json_solve_str-text_example :
    json_solve_str true always (text some_value ++ 0 ∷ [])
    ≡ some (solved (length (text some_value)) (tree true [] some_value))
json_solve_str-text_example =
    json_solve_str-text always (λ n. refl) some_value (0 ∷ []) of_map (omega arith)

json_print_str-tree_example :
    json_print_str (tree true [] some_value)
    ≡ some (pos (length (text some_value)), text some_value)
json_print_str-tree_example = json_print_str-tree some_value true [] of_map (omega arith)

solve_print_example :
    (str : List ℕ) × (json_print_str (tree true [] some_value) ≡ some (pos (length str), str))
    × (json_solve_str true always (str ++ 0 ∷ [])
        ≡ some (solved (length str) (tree true [] some_value)))
solve_print_example = solve_print always (λ n. refl) some_value (0 ∷ []) of_map (omega arith)

-- The name of the first member is copied through NULL.
short-crashes : json_solve_str true once_short some_text ≡ some null_access
unfolding json_solve_str json_set_type json_get_strvalue is_split_char
short-crashes = refl

json_solve_str_total_example : (o : Outcome) × (json_solve_str true once_short some_text ≡ some o)
json_solve_str_total_example = json_solve_str_total true once_short some_text

json_print_str_total_example :
    (r : ℤ × List ℕ) × (json_print_str (tree false [] some_value) ≡ some r)
json_print_str_total_example = json_print_str_total (tree false [] some_value)

long_text-IsPlain : (n : ℕ) → All IsPlain (replicate n b'a')
long_text-IsPlain zero = tt
long_text-IsPlain (suc n) = (omega arith, long_text-IsPlain n)

json_find_elem-member_of_example :
    json_find_elem (codes "b") (tree true [] (Value.map some_members))
    ≡ member_of (codes "b") some_members
json_find_elem-member_of_example =
    json_find_elem-member_of true (codes "b") [] some_members (omega arith) (omega arith)
