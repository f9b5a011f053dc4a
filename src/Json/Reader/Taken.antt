-- ===== src/Json/Reader/Taken.antt =====
-- A lexer of json.c that succeeds has taken a character at least.
use cube.Prelude.{
  ℕ, zero, suc, ◌+◌, ◌≤◌, ◌<◌, ◌≡◌, Bool, true, false, Bool-cases, inl, inr, List, [], ◌∷◌, ℤ, pos,
  negsuc, einval, ltb, ◌==◌, ==→eq, if◌then◌else◌, length, drop, get_or, digest_size, arith, codes,
}
use cube.Json.Lexer.{
  is_number, add_char, str_end, str_loop, json_get_strvalue, num_loop, num_from, json_get_numvalue,
  json_get_boolvalue, is_value_end, negated, says,
}

-- A lexer that succeeds has read something.
abbrev pub Took : List ℕ → ℤ → Type 0
Took str (pos ret) = (0 < ret) × (0 < length str)
Took str (negsuc e) = Unit

pub length-drop_le : (n : ℕ) (xs : List ℕ) → length (drop n xs) ≤ length xs
length-drop_le zero xs = omega arith
length-drop_le (suc n) [] = omega arith
length-drop_le (suc n) (x ∷ xs) = omega (arith, length-drop_le n xs)

pub length-drop_lt : (n : ℕ) (xs : List ℕ) → 0 < n → 0 < length xs → length (drop n xs) < length xs
length-drop_lt zero xs h l = absurd (omega arith)
length-drop_lt (suc n) [] h l = absurd (omega arith)
length-drop_lt (suc n) (x ∷ xs) h l = omega (arith, length-drop_le n xs)

pub some_char : (str : List ℕ) (c : ℕ) → get_or str 0 0 ≡ c → 0 < c → 0 < length str
some_char [] c e h = absurd (omega arith)
some_char (d ∷ str) c e h = omega arith

abbrev pub Positive : ℤ → Type 0
Positive (pos ret) = 0 < ret
Positive (negsuc e) = Unit

pub Positive-if {ℓ} :
    {A : Type ℓ} (b : Bool) (x y : ℤ × A)
    → Positive x.0
    → Positive y.0
    → Positive (if b then x else y).0
Positive-if true x y p q = p
Positive-if false x y p q = q

pub str_end-Positive : (i : ℕ) → Positive (str_end i).0
str_end-Positive i = Positive-if (i == 1024) _ (pos (i + 1), []) tt (omega arith)

pub str_loop-Positive : (esc : Bool) (i : ℕ) (str : List ℕ) → Positive (str_loop esc i str).0
unfolding str_loop
str_loop-Positive true i [] =
    Positive-if (ltb (i + 1) 1024) (einval, []) (str_end (i + 1)) tt (str_end-Positive (i + 1))
str_loop-Positive true i (c ∷ str) = str_loop-Positive false (i + 1) str
str_loop-Positive false i [] =
    Positive-if (ltb i 1024) (einval, []) (str_end i) tt (str_end-Positive i)
str_loop-Positive false i (c ∷ str) =
    let plain = str_loop-Positive false (i + 1) str in
    let escaped = str_loop-Positive true (i + 1) str in
    Positive-if (ltb i 1024) _ (str_end i)
      (Positive-if (c == b'"') (pos (i + 1), []) _ (omega arith)
        (Positive-if (c == 0) (einval, []) _ tt
          (Positive-if (c == b'\\') (str_loop true (i + 1) str)
            (add_char c (str_loop false (i + 1) str)) escaped plain)))
      (str_end-Positive i)

pub num_loop-Positive : (i value : ℕ) (str : List ℕ) → 0 < i → Positive (num_loop i value str).0
unfolding num_loop
num_loop-Positive i value [] h = tt
num_loop-Positive i value (c ∷ str) h =
    Positive-if (ltb i digest_size) _ (einval, 0)
      (Positive-if (c == 0) (einval, 0) _ tt
        (Positive-if (is_value_end c) (pos i, value) _ h
          (Positive-if (is_number c) _ (einval, 0) (num_loop-Positive (i + 1) _ str (omega arith))
            tt)))
      tt

pub num_from-Positive : (i : ℕ) (str : List ℕ) → Positive (num_from i str).0
unfolding num_from
num_from-Positive i [] = tt
num_from-Positive i (c ∷ str) =
    Positive-if (is_number c) _ (einval, 0) (num_loop-Positive (i + 1) _ str (omega arith)) tt

-- The loop at the index 0 is reached at a full stop only, which is no digit.
pub num_loop_stop :
    (c : ℕ) (str : List ℕ) → (c == b'.') ≡ true → Positive (num_loop 0 0 (c ∷ str)).0
unfolding num_loop is_value_end is_number
num_loop_stop c str e = rw (==→eq c b'.' e) tt

pub Took-cons : (c : ℕ) (str : List ℕ) (z : ℤ) → Positive z → Took (c ∷ str) z
Took-cons c str (pos ret) p = (p, omega arith)
Took-cons c str (negsuc e) p = tt

-- The lexers on a text: with a positive length there is one.
pub json_get_strvalue-Took : (str : List ℕ) → Took str (json_get_strvalue str).0
unfolding json_get_strvalue
json_get_strvalue-Took [] = tt
json_get_strvalue-Took (c ∷ str) =
    Took-cons c str _ (Positive-if (c == b'"') _ (einval, []) (str_loop-Positive false 1 str) tt)

pub json_get_numvalue-Took : (str : List ℕ) → Took str (json_get_numvalue str).0
unfolding json_get_numvalue
json_get_numvalue-Took [] = tt
json_get_numvalue-Took (c ∷ str) = Took-cons c str _ (elim (Bool-cases (c == b'.')) [
  | inl stop ↦ rw stop (num_loop_stop c str stop)
  | inr other ↦ rw other (
      Positive-if (c == b'-') (negated (num_from 1 str)) (num_from 0 (c ∷ str))
        (num_from-Positive 1 str) (num_from-Positive 0 (c ∷ str)))
])

pub json_get_boolvalue-Took : (str : List ℕ) → Took str (json_get_boolvalue str).0
unfolding json_get_boolvalue
json_get_boolvalue-Took [] = tt
json_get_boolvalue-Took (c ∷ str) = Took-cons c str _ (
    Positive-if (c == b't') _ _ (word (says (c ∷ str) (codes "true") 4) 4 (omega arith)) (
      Positive-if (c == b'T') _ _
        (words (says (c ∷ str) (codes "True") 4) (says (c ∷ str) (codes "TRUE") 4) 4 (omega arith))
        (Positive-if (c == b'f') _ _ (word (says (c ∷ str) (codes "false") 5) 5 (omega arith)) (
          Positive-if (c == b'F') _ _
            (words (says (c ∷ str) (codes "False") 5) (says (c ∷ str) (codes "FALSE") 5) 5
              (omega arith))
            tt))))
  where
    word :
        (b : Bool) (n : ℕ)
        → 0 < n
        → (let r : ℤ × ℕ = if b then (pos n, 1) else (einval, 0) in Positive r.0)
    word b n p = Positive-if b (pos n, 1) (einval, 0) p tt

    words :
        (b d : Bool) (n : ℕ)
        → 0 < n
        → (let r : ℤ × ℕ = if b then (pos n, 1) else if d then (pos n, 1) else (einval, 0) in
            Positive r.0)
    words b d n p = Positive-if b (pos n, 1) _ p (word d n p)
