-- ===== src/Prelude/Blocks.antt =====
-- Two blocks in a row: what a ring of bytes reads and writes when it goes round its end.
use Prim.Native.Nat.{ℕ, zero, suc, ◌+◌, ◌-◌, ◌≤◌}
use mathlib.Core.Path.{◌≡◌, refl, sym, ap, ap₂, ◌∙◌}
use mathlib.Core.Logic.{inl}
use mathlib.Core.List.{List, [], ◌∷◌, ◌++◌}
use native.Mathlib.Omega.{arith}
use cube.Prelude.Lists.{length, take, drop}
use cube.Prelude.Memory.{
  memcpy, slice, length-slice, slice-add, length-memcpy, slice-memcpy_outside, slice-memcpy,
  take-slice, drop-slice,
}

module _ {ℓ} {A : Type ℓ} where
  pub take-append_left : (k : ℕ) (xs ys : List A) → k ≤ length xs → take k (xs ++ ys) ≡ take k xs
  take-append_left zero xs ys h = refl
  take-append_left (suc k) [] ys h = absurd (omega arith)
  take-append_left (suc k) (x ∷ xs) ys h = ap (◌∷◌ x) (take-append_left k xs ys (omega arith))

  pub drop-append_left :
      (k : ℕ) (xs ys : List A) → k ≤ length xs → drop k (xs ++ ys) ≡ drop k xs ++ ys
  drop-append_left zero xs ys h = refl
  drop-append_left (suc k) [] ys h = absurd (omega arith)
  drop-append_left (suc k) (x ∷ xs) ys h = drop-append_left k xs ys (omega arith)

  pub take-append_right :
      (k : ℕ) (xs ys : List A) → length xs ≤ k → take k (xs ++ ys) ≡ xs ++ take (k - length xs) ys
  take-append_right k [] ys h = ap (λ n. take n ys) (omega arith)
  take-append_right zero (x ∷ xs) ys h = absurd (omega arith)
  take-append_right (suc k) (x ∷ xs) ys h =
      ap (◌∷◌ x) (take-append_right k xs ys (omega arith) ∙ ap (λ n. xs ++ take n ys) (omega arith))

  pub drop-append_right :
      (k : ℕ) (xs ys : List A) → length xs ≤ k → drop k (xs ++ ys) ≡ drop (k - length xs) ys
  drop-append_right k [] ys h = ap (λ n. drop n ys) (omega arith)
  drop-append_right zero (x ∷ xs) ys h = absurd (omega arith)
  drop-append_right (suc k) (x ∷ xs) ys h =
      drop-append_right k xs ys (omega arith) ∙ ap (λ n. drop n ys) (omega arith)

module _ (xs : List ℕ) (i m j n k : ℕ) where
  pub take-slices_left : k ≤ m → take k (slice xs i m ++ slice xs j n) ≡ slice xs i k
  take-slices_left h =
      take-append_left k (slice xs i m) (slice xs j n) (omega (arith, length-slice xs i m))
      ∙ take-slice xs i m k h

  pub drop-slices_left :
      k ≤ m → drop k (slice xs i m ++ slice xs j n) ≡ slice xs (i + k) (m - k) ++ slice xs j n
  drop-slices_left h =
      drop-append_left k (slice xs i m) (slice xs j n) (omega (arith, length-slice xs i m))
      ∙ ap (λ l. l ++ slice xs j n) (drop-slice xs i m k h)

  pub take-slices_right :
      m ≤ k → k - m ≤ n → take k (slice xs i m ++ slice xs j n) ≡ slice xs i m ++ slice xs j (k - m)
  take-slices_right h h' =
      take-append_right k (slice xs i m) (slice xs j n) (omega (arith, length-slice xs i m))
      ∙ ap (λ l. slice xs i m ++ l)
          (ap (λ c. take (k - c) (slice xs j n)) (length-slice xs i m)
            ∙ take-slice xs j n (k - m) h')

  pub drop-slices_right :
      m ≤ k
      → k - m ≤ n
      → drop k (slice xs i m ++ slice xs j n) ≡ slice xs (j + (k - m)) (n - (k - m))
  drop-slices_right h h' =
      drop-append_right k (slice xs i m) (slice xs j n) (omega (arith, length-slice xs i m))
      ∙ ap (λ c. drop (k - c) (slice xs j n)) (length-slice xs i m)
      ∙ drop-slice xs j n (k - m) h'

-- Two copies, the second right behind the first.
pub slice-memcpy_twice :
    (into src : List ℕ) (i j m n total : ℕ)
    → m + n ≡ total
    → total ≤ length into
    → slice (memcpy (memcpy into 0 src i m) m src j n) 0 total ≡ slice src i m ++ slice src j n
slice-memcpy_twice into src i j m n total e h =
    let front : List ℕ = memcpy into 0 src i m in
    let all : List ℕ = memcpy front m src j n in
    let size : length front ≡ length into = length-memcpy into 0 src i m in
    ap (slice all 0) (sym e)
    ∙ slice-add all 0 m n
    ∙ ap₂ ◌++◌
        (slice-memcpy_outside front m src j n 0 m (inl (omega arith))
          ∙ slice-memcpy into 0 src i m (omega arith))
        (ap (λ k. slice all k n) (let z : 0 + m ≡ m = omega arith in z)
          ∙ slice-memcpy front m src j n (omega arith))

-- A copy to just behind a block makes the block longer.
pub slice-memcpy_behind :
    (dest src : List ℕ) (i p j m n total : ℕ)
    → i + m ≡ p
    → m + n ≡ total
    → p + n ≤ length dest
    → slice (memcpy dest p src j n) i total ≡ slice dest i m ++ slice src j n
slice-memcpy_behind dest src i p j m n total e e' h =
    let all : List ℕ = memcpy dest p src j n in
    ap (slice all i) (sym e')
    ∙ slice-add all i m n
    ∙ ap₂ ◌++◌ (slice-memcpy_outside dest p src j n i m (inl (omega arith)))
        (ap (λ k. slice all k n) e ∙ slice-memcpy dest p src j n h)
