-- ===== src/Strings/Bounded.antt =====
-- `Strncpy` and `Strncmp` with the same count go together.
use cube.Prelude.{
  ℕ, zero, suc, ◌+◌, ◌≤◌, ◌<◌, ◌≡◌, refl, ◌∙◌, sym, List, [], ◌∷◌, ◌++◌, append_assoc, append-nil,
  arith, ◌==◌, inl, inr, Bool-cases, length, set, take, length-set, length-append, get_or, pos,
}
use cube.Strings.{copy_at_most, strncpy, strncmp}
use cube.Strings.Copy.{text, Starts, Starts-set, get_or-copy_at_most}
use cube.Strings.Compare.{strncmp_zero}

text-take_front :
    (str front : List ℕ) (i : ℕ) → Starts str front → i ≡ length front → text (take i str) ≡ front
text-take_front str [] zero s e = refl
text-take_front str [] (suc i) s e = absurd (omega arith)
text-take_front [] (c ∷ front) i s e = absurd s
text-take_front (d ∷ str) (c ∷ front) zero s e = absurd (omega arith)
text-take_front (d ∷ str) (c ∷ front) (suc i) s e =
    ground (arith, text-take_front str front i s.2 (omega arith))

text-take-set_end :
    (str front : List ℕ) (i k : ℕ)
    → Starts str front
    → i ≡ length front
    → i < k
    → i < length str
    → text (take k (set str i 0)) ≡ front
text-take-set_end [] front i k s e h l = absurd (omega arith)
text-take-set_end (d ∷ str) front i zero s e h l = absurd (omega arith)
text-take-set_end (d ∷ str) [] zero (suc k) s e h l = refl
text-take-set_end (d ∷ str) [] (suc i) (suc k) s e h l = absurd (omega arith)
text-take-set_end (d ∷ str) (c ∷ front) zero (suc k) s e h l = absurd (omega arith)
text-take-set_end (d ∷ str) (c ∷ front) (suc i) (suc k) s e h l =
    ground (arith, text-take-set_end str front i k s.2 (omega arith) (omega arith) (omega arith))

text-copy_at_most :
    (dest front : List ℕ) (i : ℕ) (src : List ℕ) (n k : ℕ)
    → Starts dest front
    → i ≡ length front
    → i + n ≡ k
    → k ≤ length dest
    → text (take k (copy_at_most dest i src n)) ≡ front ++ text (take n src)
unfolding copy_at_most
text-copy_at_most dest front i src zero k s e h l =
    text-take_front dest front k s (omega arith) ∙ sym (append-nil front)
text-copy_at_most dest front i [] (suc n) k s e h l =
    text-take-set_end dest front i k s e (omega arith) (omega arith) ∙ sym (append-nil front)
text-copy_at_most dest front i (c ∷ src) (suc n) k s e h l = elim (Bool-cases (c == 0)) [
  | inl end ↦
      rw end
        (text-take-set_end dest front i k s e (omega arith) (omega arith) ∙ sym (append-nil front))
  | inr more ↦ rw more (
      text-copy_at_most (set dest i c) (front ++ c ∷ []) (i + 1) src n k
        (Starts-set dest front i c s e (omega arith) (ground arith))
        (omega (arith, length-append front (c ∷ []))) (omega arith)
        (omega (arith, length-set dest i c))
      ∙ append_assoc front (c ∷ []) (text (take n src)))
]

-- After `Strncpy` of at most `n` characters into an array with room for them `Strncmp` finds the
-- first `n` bytes of both to have the same text, and from the index `n` on the array is as before.
pub strncpy_lem :
    (dest src : List ℕ) (n : ℕ)
    → n ≤ length dest
    → (strncmp (strncpy dest src n) src n ≡ pos 0)
      × ((j : ℕ) → n ≤ j → get_or (strncpy dest src n) j 0 ≡ get_or dest j 0)
unfolding strncpy
strncpy_lem dest src n h = (
  (strncmp_zero (copy_at_most dest 0 src n) src n).1
      (text-copy_at_most dest [] 0 src n n tt refl (omega arith) h),
  λ j l. get_or-copy_at_most dest 0 src n j 0 (inr (omega arith)),
)
