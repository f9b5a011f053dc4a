-- ===== src/Json/Printer/Rounds.antt =====
-- Rounds of the printer of json.c that lead from one to the next.
use cube.Prelude.{
  ℕ, zero, suc, ◌<◌, ◌≡◌, refl, sym, ap, ◌∙◌, subst, false, some, List, [], ◌∷◌, ◌++◌, ◌==◌, arith,
  take, append_assoc,
}
use cube.Strings.{strnlen}
use cube.Json.Spec.{quoted, FitsIn}
use cube.Json.Printer.{Place, Turn, more, done, in_quotes, print_round, whole, print_rounds}
use cube.Json.Printer.Progress.{left_of, Lessens, goes_on, print_round-Lessens}

-- Rounds from a place to another that write a text.
pub data Prints : Place → List ℕ → Place → Type 0 where
  here : {p : Place} → Prints p [] p
  turn :
      {p q r : Place} {written rest str : List ℕ}
      → print_round p ≡ more written q
      → Prints q rest r
      → str ≡ written ++ rest
      → Prints p str r

-- A turn and the rounds behind it.
pub data LeadsTo : Turn → List ℕ → Place → Type 0 where
  leads_to :
      {p q : Place} {written rest str : List ℕ}
      → Prints p rest q
      → str ≡ written ++ rest
      → LeadsTo (more written p) str q

pub Prints-trans :
    {p q r : Place} {front back str : List ℕ}
    → Prints p front q
    → Prints q back r
    → str ≡ front ++ back
    → Prints p str r
Prints-trans {p = p} {r = r} here s e = subst (λ l. Prints p l r) (sym e) s
Prints-trans {back = back} (turn {written = written} {rest = rest} t s e') s' e =
    turn t (Prints-trans s s' refl) (e ∙ ap (λ l. l ++ back) e' ∙ append_assoc written rest back)

pub Prints-LeadsTo :
    {p q : Place} {t : Turn} {str : List ℕ} → print_round p ≡ t → LeadsTo t str q → Prints p str q
Prints-LeadsTo e (leads_to s w) = turn e s w

-- The loop, when rounds lead to the end.
pub print_rounds-Prints :
    (fuel : ℕ) {p q : Place} {front back : List ℕ}
    → left_of p < fuel
    → Prints p front q
    → print_round q ≡ done back
    → print_rounds fuel p ≡ some (whole (front ++ back))
unfolding print_rounds
print_rounds-Prints zero h s e = absurd (omega arith)
print_rounds-Prints (suc fuel) h here e = rw (e, print_rounds) refl
print_rounds-Prints (suc fuel) {p = p} {back = back} h
      (turn {q = q} {written = written} {rest = rest} t s w) e =
    let less : left_of q < left_of p =
      went (subst (Lessens (left_of p)) t (print_round-Lessens p)) in
    rw
      (
        t,
        print_rounds,
        print_rounds-Prints fuel (omega arith) s e,
        w,
        append_assoc written rest back,
      )
      refl
  where
    went : {n : ℕ} {written : List ℕ} {q : Place} → Lessens n (more written q) → left_of q < n
    went (goes_on l) = l

-- Short texts are not cut.
strnlen-FitsIn : (n : ℕ) (s : List ℕ) → FitsIn n s → take (strnlen s n) s ≡ s
unfolding strnlen
strnlen-FitsIn zero [] h = refl
strnlen-FitsIn (suc n) [] h = refl
strnlen-FitsIn zero (c ∷ s) h = absurd (omega (arith, h.1))
strnlen-FitsIn (suc n) (c ∷ s) h =
    let some_char : (c == 0) ≡ false = ground (arith, h.0) in
    rw some_char (ap (◌∷◌ c) (strnlen-FitsIn n s (h.0.1, omega (arith, h.1))))

pub in_quotes-FitsIn : (n : ℕ) (s : List ℕ) → FitsIn n s → in_quotes s n ≡ quoted s
in_quotes-FitsIn n s h = ap quoted (strnlen-FitsIn n s h)
