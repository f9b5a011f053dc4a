-- ===== src/Strings/Same.antt =====
-- Texts without a terminator inside, and when they are the same.
use cube.Prelude.{
  ℕ, zero, suc, ◌≤◌, ◌≡◌, ◌≢◌, refl, ◌∙◌, Bool, true, false, Bool-cases, inl, inr, List, [], ◌∷◌,
  is_zero, ◌==◌, arith, if◌then◌else◌, All, length,
}
use cube.Strings.{strncmp, diff}

abbrev pub NoNul : ℕ → Type 0
NoNul c = c ≢ 0

abbrev pub FitsIn : ℕ → List ℕ → Type 0
FitsIn n s = All NoNul s × (length s ≤ n)

unfoldable pub same_text : List ℕ → List ℕ → Bool
same_text [] [] = true
same_text [] (b ∷ t) = false
same_text (a ∷ s) [] = false
same_text (a ∷ s) (b ∷ t) = if a == b then same_text s t else false

is_zero-diff : (a b : ℕ) → is_zero (diff a b) ≡ (a == b)
is_zero-diff a b = ground arith

nil_of : (s : List ℕ) → length s ≤ 0 → s ≡ []
nil_of [] h = refl
nil_of (c ∷ s) h = absurd (omega arith)

pub is_zero-strncmp :
    (n : ℕ) (s t : List ℕ) → FitsIn n s → FitsIn n t → is_zero (strncmp s t n) ≡ same_text s t
unfolding strncmp same_text
is_zero-strncmp zero [] [] h k = refl
is_zero-strncmp zero [] (b ∷ t) h k = absurd (omega (arith, k.1))
is_zero-strncmp zero (a ∷ s) t h k = absurd (omega (arith, h.1))
is_zero-strncmp (suc n) [] [] h k = refl
is_zero-strncmp (suc n) [] (b ∷ t) h k = ground (arith, k.0)
is_zero-strncmp (suc n) (a ∷ s) [] h k = ground (arith, h.0)
is_zero-strncmp (suc n) (a ∷ s) (b ∷ t) h k =
    let more : (a == 0) ≡ false = ground (arith, h.0) in
    elim (Bool-cases (n == 0)) [
      | inl last ↦
          rw
            (last, is_zero-diff a b, nil_of s (ground (arith, h.1)), nil_of t (ground (arith, k.1)))
            (elim (Bool-cases (a == b)) [ inl same ↦ rw same refl | inr other ↦ rw other refl ])
      | inr on ↦ elim (Bool-cases (a == b)) [
        | inl same ↦
            rw (on, more, same)
              (is_zero-strncmp n s t (h.0.1, omega (arith, h.1)) (k.0.1, omega (arith, k.1)))
        | inr other ↦ rw (on, more, other) (is_zero-diff a b ∙ other)
      ]
    ]
