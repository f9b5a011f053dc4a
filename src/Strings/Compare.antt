-- ===== src/Strings/Compare.antt =====
-- The comparisons tell texts apart.
use cube.Prelude.{
  ◌<◌, false, ◌==◌, ℕ, zero, suc, ◌≤◌, ◌≡◌, ◌↔◌, refl, ap₂, List, [], ◌∷◌, false, arith, ◌==◌, inl,
  inr, Bool-cases, take, pos, length,
}
use cube.Strings.{strcmp, strncmp, memcmp, memcmp_loop, diff}
use cube.Strings.Copy.{text}

-- `Strcmp` is 0 exactly for two strings with the same text.
pub strcmp_zero : (s₁ s₂ : List ℕ) → (strcmp s₁ s₂ ≡ pos 0) ↔ (text s₁ ≡ text s₂)
unfolding strcmp
strcmp_zero [] [] = (λ _. refl, λ _. refl)
strcmp_zero [] (b ∷ s₂) = ground arith
strcmp_zero (a ∷ s₁) [] = ground arith
strcmp_zero (a ∷ s₁) (b ∷ s₂) = ground (arith, (strcmp_zero s₁ s₂).0, (strcmp_zero s₁ s₂).1)

-- A difference is 0 exactly for equal characters.
diff_zero : (a b : ℕ) → (diff a b ≡ pos 0) ↔ (a ≡ b)
diff_zero a b = (λ h. ground arith, λ h. ground arith)

-- One round of `Strncmp`, given the rounds that follow.
strncmp_round :
    (a b : ℕ) (s₁ s₂ : List ℕ) (n : ℕ)
    → (strncmp s₁ s₂ n ≡ pos 0) ↔ (text (take n s₁) ≡ text (take n s₂))
    → (strncmp (a ∷ s₁) (b ∷ s₂) (suc n) ≡ pos 0) ↔ (text (a ∷ take n s₁) ≡ text (b ∷ take n s₂))
unfolding strncmp
strncmp_round a b s₁ s₂ n ih = elim (Bool-cases (n == 0)) [
  | inl last ↦
      let e : n ≡ 0 = ground arith in
      rw (last, e) (ground (arith, (diff_zero a b).0, (diff_zero a b).1))
  | inr more ↦ elim (Bool-cases (a == 0)) [
    | inl end ↦ rw (more, end) (ground (arith, (diff_zero a b).0, (diff_zero a b).1))
    | inr on ↦ elim (Bool-cases (a == b)) [
      | inl same ↦
          let e : a ≡ b = ground arith in
          let on' : (b == 0) ≡ false = ground arith in
          rw (more, on, same, on') (λ h. ap₂ ◌∷◌ e (ih.0 h), λ h. ih.1 (cc))
      | inr other ↦ rw (more, on, other) (ground (arith, (diff_zero a b).0, (diff_zero a b).1))
    ]
  ]
]

-- `Strncmp` is 0 exactly for two strings whose first `n` bytes have the same text.
pub strncmp_zero :
    (s₁ s₂ : List ℕ) (n : ℕ) → (strncmp s₁ s₂ n ≡ pos 0) ↔ (text (take n s₁) ≡ text (take n s₂))
unfolding strncmp
strncmp_zero s₁ s₂ zero = (λ _. refl, λ _. refl)
strncmp_zero [] [] (suc n) = (λ _. refl, λ _. refl)
strncmp_zero [] (b ∷ s₂) (suc n) = ground arith
strncmp_zero (a ∷ s₁) [] (suc n) = ground arith
strncmp_zero (a ∷ s₁) (b ∷ s₂) (suc n) = strncmp_round a b s₁ s₂ n (strncmp_zero s₁ s₂ n)

memcmp_loop-zero :
    (s₁ s₂ : List ℕ) (n : ℕ)
    → n ≤ length s₁
    → n ≤ length s₂
    → (memcmp_loop s₁ s₂ n ≡ pos 0) ↔ (take n s₁ ≡ take n s₂)
unfolding memcmp_loop
memcmp_loop-zero s₁ s₂ zero h k = (λ _. refl, λ _. refl)
memcmp_loop-zero [] s₂ (suc n) h k = absurd (omega arith)
memcmp_loop-zero (a ∷ s₁) [] (suc n) h k = absurd (omega arith)
memcmp_loop-zero (a ∷ s₁) (b ∷ s₂) (suc zero) h k = ground arith
memcmp_loop-zero (a ∷ s₁) (b ∷ s₂) (suc (suc n)) h k =
    let ih = memcmp_loop-zero s₁ s₂ (suc n) (omega arith) (omega arith) in
    ground (arith, ih.0, ih.1)

-- `Memcmp` of a positive count `n` over blocks of at least `n` bytes is 0 exactly where their first
-- `n` bytes are the same.
pub memcmp_zero :
    (s₁ s₂ : List ℕ) (n : ℕ)
    → 0 < n
    → n ≤ length s₁
    → n ≤ length s₂
    → (memcmp s₁ s₂ n ≡ pos 0) ↔ (take n s₁ ≡ take n s₂)
unfolding memcmp
memcmp_zero s₁ s₂ n some_count h k =
    let counted : (n == 0) ≡ false = ground arith in rw counted (memcmp_loop-zero s₁ s₂ n h k)
