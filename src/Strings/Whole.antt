-- ===== src/Strings/Whole.antt =====
-- `Strncpy` of a text that has more characters than the count, or no more than the count into zeros.
use cube.Prelude.{
  ℕ, zero, suc, ◌-◌, ◌≤◌, ◌≡◌, refl, ap, ◌∙◌, false, ◌==◌, List, [], ◌∷◌, ◌++◌, append_assoc,
  length, set-append_cons, set_next, length_next, take, drop, replicate, All, arith,
}
use cube.Strings.{strlen, copy_at_most, strncpy}

abbrev pub IsChar : ℕ → Type 0
IsChar c = (c == 0) ≡ false

pub strlen-chars : (str : List ℕ) → All IsChar str → strlen str ≡ length str
unfolding strlen
strlen-chars [] h = refl
strlen-chars (c ∷ str) h = rw h.0 (ap suc (strlen-chars str h.1))

copy_full :
    (front old src : List ℕ) (n : ℕ)
    → n ≤ length old
    → n ≤ length src
    → All IsChar src
    → copy_at_most (front ++ old) (length front) src n ≡ front ++ (take n src ++ drop n old)
unfolding copy_at_most
copy_full front old src zero l k h = refl
copy_full front [] src (suc n) l k h = absurd (omega arith)
copy_full front (x ∷ old) [] (suc n) l k h = absurd (omega arith)
copy_full front (x ∷ old) (c ∷ src) (suc n) l k h =
    rw (h.0, set_next front x c old, length_next front c)
      (copy_full (front ++ c ∷ []) old src n (omega arith) (omega arith) h.1
        ∙ append_assoc front (c ∷ []) (take n src ++ drop n old))

padding : (front : List ℕ) {j k : ℕ} → j ≡ k → front ++ replicate j 0 ≡ front ++ replicate k 0
padding front e = ap (λ j. front ++ replicate j 0) e

copy_padded :
    (front src : List ℕ) (n k : ℕ)
    → length src ≤ n
    → n ≤ k
    → All IsChar src
    → copy_at_most (front ++ replicate k 0) (length front) src n
      ≡ front ++ (src ++ replicate (k - length src) 0)
unfolding copy_at_most
copy_padded front [] zero k l r h = padding front (omega arith)
copy_padded front [] (suc n) zero l r h = absurd (omega arith)
copy_padded front [] (suc n) (suc k) l r h =
    set-append_cons front 0 0 (replicate k 0) ∙ padding front {j = suc k} (omega arith)
copy_padded front (c ∷ src) zero k l r h = absurd (omega arith)
copy_padded front (c ∷ src) (suc n) zero l r h = absurd (omega arith)
copy_padded front (c ∷ src) (suc n) (suc k) l r h =
    rw (h.0, set_next front 0 c (replicate k 0), length_next front c)
      (copy_padded (front ++ c ∷ []) src n k (omega arith) (omega arith) h.1
        ∙ append_assoc front (c ∷ []) (src ++ replicate (k - length src) 0)
        ∙ ap (λ j. front ++ c ∷ (src ++ replicate j 0)) (omega arith))

pub strncpy-full :
    (dest src : List ℕ) (n : ℕ)
    → n ≤ length dest
    → n ≤ length src
    → All IsChar src
    → strncpy dest src n ≡ take n src ++ drop n dest
unfolding strncpy
strncpy-full dest src n = copy_full [] dest src n

pub strncpy-padded :
    (src : List ℕ) (n k : ℕ)
    → length src ≤ n
    → n ≤ k
    → All IsChar src
    → strncpy (replicate k 0) src n ≡ src ++ replicate (k - length src) 0
unfolding strncpy
strncpy-padded src n k = copy_padded [] src n k
