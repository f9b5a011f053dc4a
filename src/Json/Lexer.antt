-- ===== src/Json/Lexer.antt =====
-- The lexers of json.c. A `char *` is the list of the characters from there on; behind the list the
-- model reads 0.
use cube.Prelude.{
  ℕ, ◌+◌, ◌-◌, ◌*◌, ◌%◌, ◌^◌, Bool, true, false, ◌||◌, ◌&&◌, List, [], ◌∷◌, ℤ, pos, einval, leb,
  ltb, ◌==◌, is_zero, if◌then◌else◌, get_or, codes, digest_size,
}
use cube.Strings.{memcmp}

-- `IsValueEnd`, `IsSplitChar` and `IsIgnoreChar`.
unfoldable pub is_ignore_char : ℕ → Bool
is_ignore_char c = (c == b' ') || ((c == 13) || ((c == 10) || (c == 9)))

unfoldable pub is_split_char : ℕ → Bool
unfolding is_ignore_char
is_split_char c = (c == b',') || is_ignore_char c

unfoldable pub is_value_end : ℕ → Bool
unfolding is_split_char is_ignore_char
is_value_end c = (c == 0) || ((c == b'}') || ((c == b']') || is_split_char c))

unfoldable pub is_number : ℕ → Bool
is_number c = leb b'0' c && leb c b'9'

-- The text that a lexer has written, with one more character in front.
abbrev pub add_char : ℕ → ℤ × List ℕ → ℤ × List ℕ
add_char c (status, text) = (status, c ∷ text)

-- The end of the loop of `json_get_strvalue` at 1024 or behind it.
abbrev pub str_end : ℕ → ℤ × List ℕ
str_end i = if i == 1024 then (einval, []) else (pos (i + 1), [])

-- The loop of `json_get_strvalue` at the index `i`, on the character behind a backslash (`true`) or
-- at the head of the loop: the status and the characters that it stores.
unfoldable pub str_loop : Bool → ℕ → List ℕ → ℤ × List ℕ
str_loop true i [] = add_char 0 (if ltb (i + 1) 1024 then (einval, []) else str_end (i + 1))
str_loop true i (c ∷ str) = add_char c (str_loop false (i + 1) str)
str_loop false i [] = if ltb i 1024 then (einval, []) else str_end i
str_loop false i (c ∷ str) =
    let plain = add_char c (str_loop false (i + 1) str) in
    let escaped = str_loop true (i + 1) str in
    if ltb i 1024
    then (if c == b'"'
        then (pos (i + 1), [])
        else if c == 0
        then (einval, [])
        else if c == b'\\'
        then escaped
        else plain)
    else str_end i

-- `json_get_strvalue`.
unfoldable pub json_get_strvalue : List ℕ → ℤ × List ℕ
unfolding str_loop
json_get_strvalue [] = (einval, [])
json_get_strvalue (c ∷ str) = if c == b'"' then str_loop false 1 str else (einval, [])

-- The loop of `json_get_numvalue` at the index `i`. The `int` is kept as its 32 bits.
unfoldable pub num_loop : ℕ → ℕ → List ℕ → ℤ × ℕ
num_loop i value [] = (einval, 0)
num_loop i value (c ∷ str) =
    let rest = num_loop (i + 1) ((value * 10 + (c - b'0')) % 2 ^ 32) str in
    if ltb i digest_size
    then (if c == 0
        then (einval, 0)
        else if is_value_end c
        then (pos i, value)
        else if is_number c
        then rest
        else (einval, 0))
    else (einval, 0)

abbrev pub negated : ℤ × ℕ → ℤ × ℕ
negated (status, value) = (status, (2 ^ 32 - value) % 2 ^ 32)

-- The first digit, at the index `i`, and the loop.
unfoldable pub num_from : ℕ → List ℕ → ℤ × ℕ
unfolding num_loop
num_from i [] = (einval, 0)
num_from i (c ∷ str) = if is_number c then num_loop (i + 1) (c - b'0') str else (einval, 0)

-- `json_get_numvalue`.
unfoldable pub json_get_numvalue : List ℕ → ℤ × ℕ
unfolding num_from num_loop
json_get_numvalue [] = (einval, 0)
json_get_numvalue (c ∷ str) =
    if c == b'.'
    then num_loop 0 0 (c ∷ str)
    else if c == b'-'
    then negated (num_from 1 str)
    else num_from 0 (c ∷ str)

abbrev pub says : List ℕ → List ℕ → ℕ → Bool
says str word n = is_zero (memcmp str word n)

-- `json_get_boolvalue`: the status and the value, which is 1 for the words of falsehood too.
unfoldable pub json_get_boolvalue : List ℕ → ℤ × ℕ
json_get_boolvalue str =
    if get_or str 0 0 == b't'
    then (if says str (codes "true") 4 then (pos 4, 1) else (einval, 0))
    else if get_or str 0 0 == b'T'
    then (if says str (codes "True") 4
        then (pos 4, 1)
        else if says str (codes "TRUE") 4
        then (pos 4, 1)
        else (einval, 0))
    else if get_or str 0 0 == b'f'
    then (if says str (codes "false") 5 then (pos 5, 1) else (einval, 0))
    else if get_or str 0 0 == b'F'
    then (if says str (codes "False") 5
        then (pos 5, 1)
        else if says str (codes "FALSE") 5
        then (pos 5, 1)
        else (einval, 0))
    else (einval, 0)

-- Characters that are passed over in front of and behind a colon.
unfoldable pub skip_ignored : List ℕ → List ℕ
skip_ignored [] = []
skip_ignored (c ∷ str) = if is_ignore_char c then skip_ignored str else c ∷ str
