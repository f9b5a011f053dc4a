-- ===== src/Number/Digits.antt =====
-- The decimal digits that `Itoa` writes stand for the number.
use cube.Prelude.{
  ℕ, zero, suc, ◌+◌, ◌-◌, ◌*◌, ◌/◌, ◌%◌, ◌^◌, ◌≤◌, ◌<◌, ◌≡◌, ◌≢◌, refl, List, [], ◌∷◌, ◌++◌, arith,
  ◌==◌, inl, inr, Bool-cases, length, length-append, All, get_or, pos,
}
use native.Mathlib.Nat.{pow-suc}
use cube.Number.{digits_up, turned, itoa, int_digits}

-- The value of a text of decimal digits behind the value `acc`.
unfoldable pub eval : ℕ → List ℕ → ℕ
eval acc [] = acc
eval acc (c ∷ str) = eval (acc * 10 + (c - b'0')) str

abbrev pub IsDigit : ℕ → Type 0
IsDigit c = (b'0' ≤ c) × (c ≤ b'9')

eval-snoc :
    (acc : ℕ) (xs : List ℕ) (c : ℕ) → eval acc (xs ++ c ∷ []) ≡ eval acc xs * 10 + (c - b'0')
unfolding eval
eval-snoc acc [] c = refl
eval-snoc acc (x ∷ xs) c = eval-snoc (acc * 10 + (x - b'0')) xs c

All-snoc : (xs : List ℕ) (c : ℕ) → All IsDigit xs → IsDigit c → All IsDigit (xs ++ c ∷ [])
All-snoc [] c a d = (d, tt)
All-snoc (x ∷ xs) c a d = (a.0, All-snoc xs c a.1 d)

-- The text of a number below `10 ^ fuel`: its value, its characters, its length and its first
-- character.
pub record IsDecimal (fuel n : ℕ) (str : List ℕ) : Type 0 where
  pub value : eval 0 str ≡ n
  pub digits : All IsDigit str
  pub short : length str ≤ fuel
  pub some_digit : 0 < length str
  pub no_lead : n ≢ 0 → get_or str 0 0 ≢ b'0'

get_or-snoc : (xs : List ℕ) (c d : ℕ) → 0 < length xs → get_or (xs ++ c ∷ []) 0 d ≡ get_or xs 0 d
get_or-snoc [] c d h = absurd (omega arith)
get_or-snoc (x ∷ xs) c d h = refl

fuel_left : (fuel m : ℕ) → m < 10 ^ fuel → 0 < m → 0 < fuel
fuel_left zero m h p = absurd (omega arith)
fuel_left (suc fuel) m h p = omega arith

pub turned-IsDecimal :
    (fuel n : ℕ) → n < 10 ^ fuel → 0 < fuel → IsDecimal fuel n (turned (digits_up fuel n))
unfolding digits_up turned eval
turned-IsDecimal zero n h l = absurd (omega arith)
turned-IsDecimal (suc fuel) n h l = elim (Bool-cases (n / 10 == 0)) [
  | inl last ↦ rw last (record {
    value = ground arith;
    digits = omega arith;
    short = omega arith;
    some_digit = omega arith;
    no_lead = ground arith;
  })
  | inr more ↦
      let lt : n / 10 < 10 ^ fuel = omega (arith, pow-suc 10 fuel) in
      let r : IsDecimal fuel (n / 10) (turned (digits_up fuel (n / 10))) =
        turned-IsDecimal fuel (n / 10) lt (fuel_left fuel (n / 10) lt (ground arith)) in
      let front = turned (digits_up fuel (n / 10)) in
      let c = n % 10 + b'0' in
      rw more (record {
        value = omega (arith, eval-snoc 0 front c, r.value);
        digits = All-snoc front c r.digits (omega arith);
        short = omega (arith, length-append front (c ∷ []), r.short);
        some_digit = omega (arith, length-append front (c ∷ []));
        no_lead = λ _. rw (get_or-snoc front c 0 r.some_digit) (r.no_lead (ground arith));
      })
]

-- What `Itoa` writes for an `int` that is not negative.
pub itoa-IsDecimal : (n : ℕ) → n < 2 ^ 31 → IsDecimal int_digits n (itoa (pos n))
unfolding itoa
itoa-IsDecimal n h = turned-IsDecimal int_digits n (omega arith) (omega arith)
