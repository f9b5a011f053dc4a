-- ===== src/Number/RoundTrip.antt =====
-- `Atoi` reads what `Itoa` wrote.
use cube.Prelude.{
  ℕ, zero, suc, ◌+◌, ◌-◌, ◌*◌, ◌^◌, ◌≤◌, ◌<◌, ◌≡◌, ◌≢◌, ◌⊎◌, refl, ap, List, [], ◌∷◌, ◌++◌, false,
  pos, negsuc, einval, arith, leb, ◌==◌, inl, inr, Bool-cases, length, All, get_or,
  take-length_append,
}
use cube.Strings.{strnlen}
use cube.Number.{
  digits_up, turned, int_digits, itoa, get_char_value, at, prefix_at, head_at, sum_digits, sum_from,
  atoi,
}
use cube.Number.Digits.{eval, IsDigit, IsDecimal, turned-IsDecimal}

sum_digits-eval :
    (acc : ℕ) (str : List ℕ) → All IsDigit str → sum_digits 10 acc str ≡ pos (eval acc str)
unfolding sum_digits eval get_char_value
sum_digits-eval acc [] h = refl
sum_digits-eval acc (c ∷ str) h = ground (arith, sum_digits-eval (acc * 10 + (c - b'0')) str)

strnlen-digits :
    (str : List ℕ) (k : ℕ)
    → All IsDigit str
    → length str ≤ k
    → strnlen (str ++ 0 ∷ []) k ≡ length str
unfolding strnlen
strnlen-digits [] zero h l = refl
strnlen-digits [] (suc k) h l = refl
strnlen-digits (c ∷ str) zero h l = absurd (omega arith)
strnlen-digits (c ∷ str) (suc k) h l = ground (arith, strnlen-digits str k)

head_at-digits :
    (str : List ℕ) (len : ℕ)
    → All IsDigit str
    → 0 < length str
    → 0 < len
    → get_or str 0 0 ≢ b'0'
    → head_at len (str ++ 0 ∷ []) len 0 ≡ at 0 10
unfolding head_at
head_at-digits [] len h l p nz = absurd (omega arith)
head_at-digits (c ∷ str) zero h l p nz = absurd (omega arith)
head_at-digits (c ∷ str) (suc len) h l p nz = ground arith

-- The number behind a positive decimal text of known length.
sum_from-IsDecimal :
    (n : ℕ) (str : List ℕ)
    → n ≢ 0
    → IsDecimal int_digits n str
    → sum_from (str ++ 0 ∷ []) (length str) (head_at (length str) (str ++ 0 ∷ []) (length str) 0)
      ≡ pos n
unfolding sum_from
sum_from-IsDecimal n str nz d = rw (
  head_at-digits str (length str) d.digits d.some_digit d.some_digit (d.no_lead nz),
  take-length_append str (0 ∷ []) (length str - 0) (omega arith),
  sum_digits-eval 0 str d.digits,
  d.value,
)

atoi-IsDecimal :
    (n maxlen : ℕ) (str : List ℕ)
    → n ≢ 0
    → IsDecimal int_digits n str
    → (maxlen ≡ 0) ⊎ (int_digits ≤ maxlen)
    → atoi (str ++ 0 ∷ []) maxlen ≡ pos n
unfolding atoi
atoi-IsDecimal n maxlen str nz d m = elim (Bool-cases (maxlen == 0)) [
  | inl all ↦
      rw (all, strnlen-digits str 32 d.digits (omega (arith, d.short)))
        (sum_from-IsDecimal n str nz d)
  | inr some_len ↦
      rw (some_len, strnlen-digits str maxlen d.digits (ground (arith, d.short)))
        (sum_from-IsDecimal n str nz d)
]

from_zero :
    (len : ℕ) → len ≡ 1 → sum_from (b'0' ∷ 0 ∷ []) len (head_at len (b'0' ∷ 0 ∷ []) len 0) ≡ pos 0
unfolding sum_from head_at prefix_at
from_zero len e = rw e

atoi-zero :
    (maxlen : ℕ) → (maxlen ≡ 0) ⊎ (int_digits ≤ maxlen) → atoi (b'0' ∷ 0 ∷ []) maxlen ≡ pos 0
unfolding atoi
atoi-zero maxlen m = elim (Bool-cases (maxlen == 0)) [
  | inl all ↦ rw all (from_zero _ (strnlen-digits (b'0' ∷ []) 32 (omega arith) (omega arith)))
  | inr some_len ↦
      rw some_len (from_zero _ (strnlen-digits (b'0' ∷ []) maxlen (omega arith) (ground arith)))
]

-- Every `int` that is not negative is read back from the text that `Itoa` makes of it, at the
-- length 0, which stands for 32 characters, and at every length from 10 on.
pub atoi-itoa :
    (n maxlen : ℕ)
    → n < 2 ^ 31
    → (maxlen ≡ 0) ⊎ (int_digits ≤ maxlen)
    → atoi (itoa (pos n) ++ 0 ∷ []) maxlen ≡ pos n
unfolding itoa
atoi-itoa zero maxlen h m = atoi-zero maxlen m
atoi-itoa (suc n) maxlen h m =
    atoi-IsDecimal (suc n) maxlen (turned (digits_up int_digits (suc n))) (omega arith)
      (turned-IsDecimal int_digits (suc n) (omega arith) (omega arith)) m

turned-snoc : (xs : List ℕ) (c : ℕ) → turned (xs ++ c ∷ []) ≡ c ∷ turned xs
unfolding turned
turned-snoc [] c = refl
turned-snoc (x ∷ xs) c = ap (λ l. l ++ x ∷ []) (turned-snoc xs c)

from_sign :
    (str : List ℕ) (len l : ℕ)
    → len ≡ suc l
    → sum_from (b'-' ∷ str) len (head_at len (b'-' ∷ str) len 0) ≡ einval
unfolding sum_from head_at sum_digits get_char_value
from_sign str len l e =
    let start : (leb (suc l) 0) ≡ false = ground arith in
    let all : suc l - 0 ≡ suc l = omega arith in rw (e, start, all)

strnlen-sign : (str : List ℕ) (k : ℕ) → 0 < k → strnlen (b'-' ∷ str) k ≡ suc (strnlen str (k - 1))
unfolding strnlen
strnlen-sign str zero h = absurd (omega arith)
strnlen-sign str (suc k) h = ap (λ j. suc (strnlen str j)) (omega arith)

atoi-sign :
    (str : List ℕ) (maxlen : ℕ)
    → (maxlen ≡ 0) ⊎ (int_digits ≤ maxlen)
    → atoi (b'-' ∷ str) maxlen ≡ einval
unfolding atoi
atoi-sign str maxlen m = elim (Bool-cases (maxlen == 0)) [
  | inl all ↦ rw all (from_sign str _ _ (strnlen-sign str 32 (omega arith)))
  | inr some_len ↦ rw some_len (from_sign str _ _ (strnlen-sign str maxlen (ground arith)))
]

-- No negative number is read back: `Atoi` refuses the sign that `Itoa` writes.
pub atoi-itoa_negative :
    (n maxlen : ℕ)
    → (maxlen ≡ 0) ⊎ (int_digits ≤ maxlen)
    → atoi (itoa (negsuc n) ++ 0 ∷ []) maxlen ≡ einval
unfolding itoa
atoi-itoa_negative n maxlen m =
    rw (turned-snoc (digits_up int_digits (n + 1)) b'-')
      (atoi-sign (turned (digits_up int_digits (n + 1)) ++ 0 ∷ []) maxlen m)

strnlen-two :
    (a b : ℕ) (str : List ℕ) (k : ℕ)
    → a ≢ 0
    → b ≢ 0
    → strnlen (a ∷ b ∷ str) (suc (suc k)) ≡ suc (suc (strnlen str k))
unfolding strnlen
strnlen-two a b str k p q = ground arith

head_at-space :
    (c : ℕ) (str : List ℕ) (m : ℕ)
    → All IsDigit str
    → 0 < length str
    → m ≡ length str
    → get_or str 0 0 ≢ b'0'
    → head_at (suc (suc m)) (b' ' ∷ c ∷ str ++ 0 ∷ []) (suc (suc m)) 0 ≡ at 2 10
unfolding head_at
head_at-space c [] m h l e nz = absurd (omega arith)
head_at-space c (d ∷ str) m h l e nz = ground arith

-- A space in front swallows the character behind it: of a space, any character and the text of a
-- positive number `Atoi` reads the number, as if that character were not there.
pub atoi-space :
    (c n : ℕ) (str : List ℕ)
    → c ≢ 0
    → n ≢ 0
    → IsDecimal int_digits n str
    → atoi (b' ' ∷ c ∷ str ++ 0 ∷ []) 0 ≡ pos n
unfolding atoi sum_from
atoi-space c n str nc nz d = rw (
  strnlen-two b' ' c (str ++ 0 ∷ []) 30 (omega arith) nc,
  strnlen-digits str 30 d.digits (omega (arith, d.short)),
  head_at-space c str (length str) d.digits d.some_digit refl (d.no_lead nz),
  take-length_append str (0 ∷ []) (suc (suc (length str)) - 2) (omega arith),
  sum_digits-eval 0 str d.digits,
  d.value,
)
