-- ===== src/Json/Reader/Lexing.antt =====
-- What the lexers of json.c read of a text that was written.
use cube.Prelude.{
  ℕ, suc, ◌+◌, ◌-◌, ◌*◌, ◌%◌, ◌^◌, ◌≤◌, ◌<◌, ◌≡◌, refl, sym, ap, ◌∙◌, true, false, List, [], ◌∷◌,
  ◌++◌, pos, ltb, leb, ◌==◌, arith, All, length, Bool-cases, inl, inr, digest_size,
}
use cube.Number.{itoa, int_digits}
use cube.Number.Digits.{eval, IsDigit, IsDecimal, itoa-IsDecimal}
use cube.Json.Spec.{Value, string, number, flag, text, IsPlain, IsReadable}
use cube.Json.Lexer.{
  is_ignore_char, is_split_char, is_value_end, is_number, str_loop, json_get_strvalue, num_loop,
  num_from, json_get_numvalue, skip_ignored,
}

-- The text behind a value in a map or an array.
pub data Follows : List ℕ → Type 0 where
  comma : {str : List ℕ} → Follows (b',' ∷ str)
  brace : {str : List ℕ} → Follows (b'}' ∷ str)
  bracket : {str : List ℕ} → Follows (b']' ∷ str)

str_loop-plain :
    (i n : ℕ) (s rest : List ℕ)
    → All IsPlain s
    → i + length s < 1024
    → n ≡ i + length s + 1
    → str_loop false i (s ++ b'"' ∷ rest) ≡ (pos n, s)
unfolding str_loop
str_loop-plain i n [] rest a h e = ground (arith, e)
str_loop-plain i n (c ∷ s) rest a h e =
    let room : ltb i 1024 ≡ true = ground arith in
    let not_quote : (c == b'"') ≡ false = ground arith in
    let not_nul : (c == 0) ≡ false = ground arith in
    let not_escape : (c == b'\\') ≡ false = ground arith in
    rw (
      room,
      not_quote,
      not_nul,
      not_escape,
      str_loop-plain (i + 1) n s rest a.1 (omega arith) (omega arith),
    )

pub json_get_strvalue-quoted :
    (s rest : List ℕ)
    → All IsPlain s
    → length s < 1023
    → json_get_strvalue (b'"' ∷ s ++ b'"' ∷ rest) ≡ (pos (length s + 2), s)
unfolding json_get_strvalue
json_get_strvalue-quoted s rest a h =
    str_loop-plain 1 (length s + 2) s rest a (omega arith) (omega arith)

eval_le : (acc : ℕ) (s : List ℕ) → acc ≤ eval acc s
unfolding eval
eval_le acc [] = omega arith
eval_le acc (c ∷ s) = omega (arith, eval_le (acc * 10 + (c - b'0')) s)

num_loop-digits :
    (i n acc v : ℕ) (s rest : List ℕ)
    → All IsDigit s
    → Follows rest
    → i + length s < digest_size
    → n ≡ i + length s
    → v ≡ eval acc s
    → v < 2 ^ 31
    → num_loop i acc (s ++ rest) ≡ (pos n, v)
unfolding num_loop eval is_value_end is_split_char is_ignore_char is_number
num_loop-digits i n acc v [] rest a comma h e l b = ground arith
num_loop-digits i n acc v [] rest a brace h e l b = ground arith
num_loop-digits i n acc v [] rest a bracket h e l b = ground arith
num_loop-digits i n acc v (c ∷ s) rest a f h e l b =
    let next = acc * 10 + (c - b'0') in
    let small : next % 2 ^ 32 ≡ next = omega (arith, eval_le next s) in
    let ih = num_loop-digits (i + 1) n next v s rest a.1 f (omega arith) (omega arith) l b in
    rw small (ground (arith, ih))

eval_from_zero : (c : ℕ) (s : List ℕ) → eval 0 (c ∷ s) ≡ eval (c - b'0') s
unfolding eval
eval_from_zero c s = ap (λ acc. eval acc s) (omega arith)

json_get_numvalue-IsDecimal :
    (n : ℕ) (s rest : List ℕ)
    → IsDecimal int_digits n s
    → n < 2 ^ 31
    → Follows rest
    → json_get_numvalue (s ++ rest) ≡ (pos (length s), n)
unfolding json_get_numvalue num_from is_number
json_get_numvalue-IsDecimal n [] rest d h f = absurd (omega (arith, d.some_digit))
json_get_numvalue-IsDecimal n (c ∷ s) rest d h f =
    let digit : IsDigit c = d.digits.0 in
    let low : leb b'0' c ≡ true = ground arith in
    let high : leb c b'9' ≡ true = ground arith in
    let not_stop : (c == b'.') ≡ false = ground arith in
    let not_minus : (c == b'-') ≡ false = ground arith in
    rw (not_stop, not_minus, low, high)
      (num_loop-digits 1 (suc (length s)) (c - b'0') n s rest d.digits.1 f (omega (arith, d.short))
        (omega arith) (sym d.value ∙ eval_from_zero c s) h)

-- The text of a number, with what follows it.
pub json_get_numvalue-itoa :
    (n : ℕ) (rest : List ℕ)
    → n < 2 ^ 31
    → Follows rest
    → json_get_numvalue (itoa (pos n) ++ rest) ≡ (pos (length (itoa (pos n))), n)
json_get_numvalue-itoa n rest h f =
    json_get_numvalue-IsDecimal n (itoa (pos n)) rest (itoa-IsDecimal n h) h f

-- A value starts with none of the characters between values.
pub data Starts : List ℕ → Type 0 where
  starts :
      {c : ℕ} {str : List ℕ}
      → (c == 0) ≡ false
      → is_split_char c ≡ false
      → (c == b']') ≡ false
      → (c == b',') ≡ false
      → Starts (c ∷ str)

is_ignore_char-false : (c : ℕ) → is_split_char c ≡ false → is_ignore_char c ≡ false
unfolding is_split_char is_ignore_char
is_ignore_char-false c e = elim (Bool-cases (c == b',')) [
  | inl t ↦ absurd (cc e)
  | inr f ↦ rw f at e
]

pub skip_ignored-Starts : {str : List ℕ} → Starts str → skip_ignored str ≡ str
unfolding skip_ignored
skip_ignored-Starts (starts {c = c} _ e _ _) = rw (is_ignore_char-false c e)

-- A digit is the first character of a number.
digits-Starts : (s rest : List ℕ) → All IsDigit s → 0 < length s → Starts (s ++ rest)
unfolding is_split_char is_ignore_char
digits-Starts [] rest a h = absurd (omega arith)
digits-Starts (c ∷ s) rest a h =
    let digit : IsDigit c = a.0 in
    starts (ground arith) (ground arith) (ground arith) (ground arith)

pub itoa-Starts : (n : ℕ) (rest : List ℕ) → n < 2 ^ 31 → Starts (itoa (pos n) ++ rest)
itoa-Starts n rest h =
    let d = itoa-IsDecimal n h in digits-Starts (itoa (pos n)) rest d.digits d.some_digit

pub text-Starts : (v : Value) (rest : List ℕ) → IsReadable v → Starts (text v ++ rest)
unfolding text is_split_char is_ignore_char
text-Starts (string s) rest r = starts refl refl refl refl
text-Starts (number n) rest r = itoa-Starts n rest r
text-Starts (flag true) rest r = starts refl refl refl refl
text-Starts (flag false) rest r = starts refl refl refl refl
text-Starts (Value.map ms) rest r = starts refl refl refl refl
text-Starts (Value.array ms) rest r = starts refl refl refl refl
