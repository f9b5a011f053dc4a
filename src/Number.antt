-- ===== src/Number.antt =====
-- Decimal and other numbers in text: `Itoa` and `Atoi` of cubelib/string/memfunc.c.
pub mod Digits
pub mod RoundTrip
mod Tests
use cube.Prelude.{
  ℕ, zero, suc, ◌+◌, ◌-◌, ◌*◌, ◌/◌, ◌%◌, ◌<◌, List, [], ◌∷◌, ◌++◌, ◌&&◌, ◌||◌, Bool, true, false,
  Option, none, some, ℤ, pos, negsuc, einval, ltb, leb, ◌==◌, if◌then◌else◌, get_or, take, drop,
}
use cube.Strings.{strnlen}

-- The `do … while` loop of `Itoa` on fuel: the digits of `n`, the lowest first.
unfoldable pub digits_up : ℕ → ℕ → List ℕ
digits_up zero n = []
digits_up (suc fuel) n =
    let rest = digits_up fuel (n / 10) in (n % 10 + b'0') ∷ (if n / 10 == 0 then [] else rest)

-- An `int` has ten digits at most.
abbrev pub int_digits : ℕ
int_digits = 10

-- The `for` loop of `Itoa`, which exchanges `str[i]` and `str[len-1-i]`, turns the text round.
unfoldable pub turned : List ℕ → List ℕ
turned [] = []
turned (c ∷ str) = turned str ++ c ∷ []

-- `Itoa`: the text in front of the terminator; its length is returned. The negation of the
-- lowest `int` is not defined in the source and not used.
unfoldable pub itoa : ℤ → List ℕ
unfolding digits_up turned
itoa (pos n) = turned (digits_up int_digits n)
itoa (negsuc n) = turned (digits_up int_digits (n + 1) ++ b'-' ∷ [])

-- `_get_char_value`, `none` for -EINVAL.
get_char_value : ℕ → Option ℕ
get_char_value c =
    if leb b'0' c && leb c b'9'
    then some (c - b'0')
    else if leb b'a' c && leb c b'f'
    then some (c - b'a' + 10)
    else if leb b'A' c && leb c b'F'
    then some (c - b'A' + 10)
    else none

-- What the first loop of `Atoi` finds: the number is 0, or the digits start at an index.
pub data Head : Type 0 where
  zero_text : Head
  at : ℕ → ℕ → Head

-- The `switch` of `Atoi` on the character behind a '0' at the index `i`.
prefix_at : ℕ → ℕ → Head
prefix_at i next =
    if next == 0
    then zero_text
    else if (next == b'b') || (next == b'B')
    then at (i + 2) 2
    else if (next == b'x') || (next == b'X')
    then at (i + 2) 16
    else at (i + 1) 8

-- The first loop of `Atoi` from the index `i` on, with fuel: each round goes on, so the length is
-- enough. A space is passed over together with the character behind it, since the body and the
-- head of the loop both count up.
head_at : ℕ → List ℕ → ℕ → ℕ → Head
head_at zero str len i = at i 10
head_at (suc fuel) str len i =
    let next = head_at fuel str len (i + 2) in
    if leb len i
    then at i 10
    else if get_or str i 0 == 0
    then at i 10
    else if get_or str i 0 == b' '
    then next
    else if get_or str i 0 == b'0'
    then prefix_at i (get_or str (i + 1) 0)
    else at i 10

-- The second loop of `Atoi` over the characters that are left. The sum is kept as a number: past
-- the range of an `int` the source is not defined.
sum_digits : ℕ → ℕ → List ℕ → ℤ
sum_digits base ret [] = pos ret
sum_digits base ret (c ∷ str) = elim (c == 0) [
  | true ↦ pos ret
  | false ↦ elim (get_char_value c) [
    | none ↦ einval
    | some v ↦ elim (leb base v) [ true ↦ einval | false ↦ sum_digits base (ret * base + v) str ]
  ]
]

sum_from : List ℕ → ℕ → Head → ℤ
unfolding sum_digits
sum_from str len zero_text = pos 0
sum_from str len (at i base) = sum_digits base 0 (take (len - i) (drop i str))

-- `Atoi`.
pub atoi : List ℕ → ℕ → ℤ
unfolding sum_from head_at prefix_at get_char_value
atoi str maxlen =
    let len = if maxlen == 0 then strnlen str 32 else strnlen str maxlen in
    sum_from str len (head_at len str len 0)
