-- ===== src/HashList/Uuid.antt =====
-- `comp_uuid` tells uuids apart, and equal uuids have one chain.
use cube.Prelude.{
  ℕ, zero, suc, ◌+◌, ◌*◌, ◌≤◌, ◌<◌, ◌≡◌, ◌↔◌, refl, sym, subst, inl, inr, Bool-cases, List, true,
  arith, is_zero, ◌==◌, ==→eq, length, get_or, All, IsByte, get_or-IsByte, list_ext, digest_size,
}
use cube.HashList.{word_at, comp_words, comp_uuid}

-- A word is its four bytes.
word_at-inj :
    (a b : List ℕ) (i : ℕ)
    → All IsByte a
    → All IsByte b
    → word_at a i ≡ word_at b i
    → (get_or a i 0 ≡ get_or b i 0)
      × (get_or a (i + 1) 0 ≡ get_or b (i + 1) 0)
      × (get_or a (i + 2) 0 ≡ get_or b (i + 2) 0)
      × (get_or a (i + 3) 0 ≡ get_or b (i + 3) 0)
word_at-inj a b i ha hb e = omega (
  arith,
  get_or-IsByte a i ha,
  get_or-IsByte a (i + 1) ha,
  get_or-IsByte a (i + 2) ha,
  get_or-IsByte a (i + 3) ha,
  get_or-IsByte b i hb,
  get_or-IsByte b (i + 1) hb,
  get_or-IsByte b (i + 2) hb,
  get_or-IsByte b (i + 3) hb,
)

comp_words-first :
    (a b : List ℕ) (i n : ℕ)
    → is_zero (comp_words a b i (suc n)) ≡ true
    → (word_at a i ≡ word_at b i) × (is_zero (comp_words a b (i + 4) n) ≡ true)
unfolding comp_words
comp_words-first a b i n e = ground arith

abbrev SameAt : List ℕ → List ℕ → ℕ → Type 0
SameAt a b j = get_or a j 0 ≡ get_or b j 0

-- The four bytes of a word, and those behind it.
same_from :
    (a b : List ℕ) (i j : ℕ)
    → i ≤ j
    → SameAt a b i × SameAt a b (i + 1) × SameAt a b (i + 2) × SameAt a b (i + 3)
    → (i + 4 ≤ j → SameAt a b j)
    → SameAt a b j
same_from a b i j l (e₀, e₁, e₂, e₃) later = elim (Bool-cases (j == i)) [
  | inl here ↦ at_index (==→eq j i here) e₀
  | inr p₀ ↦ elim (Bool-cases (j == i + 1)) [
    | inl here ↦ at_index (==→eq j (i + 1) here) e₁
    | inr p₁ ↦ elim (Bool-cases (j == i + 2)) [
      | inl here ↦ at_index (==→eq j (i + 2) here) e₂
      | inr p₂ ↦ elim (Bool-cases (j == i + 3)) [
        | inl here ↦ at_index (==→eq j (i + 3) here) e₃
        | inr p₃ ↦ later (ground arith)
      ]
    ]
  ]
]
  where
    at_index : {k : ℕ} → j ≡ k → SameAt a b k → SameAt a b j
    at_index e s = subst (SameAt a b) (sym e) s

comp_words-eq :
    (a b : List ℕ) (i n : ℕ)
    → All IsByte a
    → All IsByte b
    → is_zero (comp_words a b i n) ≡ true
    → (j : ℕ) → i ≤ j
    → j < i + n * 4
    → get_or a j 0 ≡ get_or b j 0
unfolding comp_words
comp_words-eq a b i zero ha hb e j l h = absurd (omega arith)
comp_words-eq a b i (suc n) ha hb e j l h =
    let (w, rest) = comp_words-first a b i n e in
    same_from a b i j l (word_at-inj a b i ha hb w)
      (λ l'. comp_words-eq a b (i + 4) n ha hb rest j l' (omega arith))

comp_words_refl : (a : List ℕ) (i n : ℕ) → is_zero (comp_words a a i n) ≡ true
unfolding comp_words
comp_words_refl a i zero = refl
comp_words_refl a i (suc n) = ground (arith, comp_words_refl a (i + 4) n)

abbrev pub IsUuid : List ℕ → Type 0
IsUuid u = (length u ≡ digest_size) × All IsByte u

-- `comp_uuid` of two uuids is 0 exactly if they are the same.
pub comp_uuid_iff :
    (a b : List ℕ) → IsUuid a → IsUuid b → (is_zero (comp_uuid a b) ≡ true) ↔ (a ≡ b)
unfolding comp_uuid
comp_uuid_iff a b ha hb = (
  λ e.
      list_ext a b (omega arith)
        (λ j l. comp_words-eq a b 0 8 ha.1 hb.1 e j (omega arith) (omega arith)),
  λ e. rw e (comp_words_refl b 0 8),
)
