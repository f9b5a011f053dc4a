-- ===== src/Prelude/Memory.antt =====
-- Blocks of bytes at an index of an array: `Memcpy` and `Memset` of cubelib/string/memfunc.c, and
-- the part of an array that starts at an index. An address is an array and an index.
use Prim.Native.Nat.{ℕ, zero, suc, ◌+◌, ◌-◌, ◌%◌, ◌≤◌, ◌<◌}
use mathlib.Core.Path.{◌≡◌, refl, sym, ap, ap₂, ◌∙◌}
use mathlib.Core.Logic.{◌⊎◌, inr}
use mathlib.Core.List.{List, [], ◌∷◌, ◌++◌, append_assoc}
use native.Mathlib.Omega.{arith}
use cube.Prelude.Lists.{
  length, length-append, replicate, get_or, set, take, drop, length-set, get_or-set_self,
  get_or-set_ne, get_or_index,
}

-- The loop of `Memcpy`: `count` bytes of `src` from `j` on go to `dest` from `i` on. The source
-- and the destination are different arrays.
unfoldable pub memcpy : List ℕ → ℕ → List ℕ → ℕ → ℕ → List ℕ
memcpy dest i src j zero = dest
memcpy dest i src j (suc count) = memcpy (set dest i (get_or src j 0)) (i + 1) src (j + 1) count

-- The loop of `Memset`: `n` bytes of `s` from `i` on become `uc`.
memset_loop : List ℕ → ℕ → ℕ → ℕ → List ℕ
memset_loop s i uc zero = s
memset_loop s i uc (suc n) = memset_loop (set s i uc) (i + 1) uc n

-- `Memset`, its value cut to a byte.
unfoldable pub memset : List ℕ → ℕ → ℕ → ℕ → List ℕ
unfolding memset_loop
memset s i c n = memset_loop s i (c % 256) n

-- The `n` bytes of an array from index `i` on.
unfoldable pub slice : List ℕ → ℕ → ℕ → List ℕ
slice xs i zero = []
slice xs i (suc n) = get_or xs i 0 ∷ slice xs (i + 1) n

pub length-slice : (xs : List ℕ) (i n : ℕ) → length (slice xs i n) ≡ n
unfolding slice
length-slice xs i zero = refl
length-slice xs i (suc n) = ap suc (length-slice xs (i + 1) n)

pub slice_index : (xs : List ℕ) {i j m n : ℕ} → i ≡ j → m ≡ n → slice xs i m ≡ slice xs j n
slice_index xs p q = ap₂ (slice xs) p q

pub slice-add : (xs : List ℕ) (i m n : ℕ) → slice xs i (m + n) ≡ slice xs i m ++ slice xs (i + m) n
unfolding slice
slice-add xs i zero n = ap₂ (slice xs) (omega arith) (omega arith)
slice-add xs i (suc m) n =
    ap (slice xs i) (let e : suc m + n ≡ suc (m + n) = omega arith in e)
    ∙ ap (◌∷◌ (get_or xs i 0))
        (slice-add xs (i + 1) m n ∙ ap (λ k. slice xs (i + 1) m ++ slice xs k n) (omega arith))

pub slice-set_outside :
    (xs : List ℕ) (k v i n : ℕ) → (k < i) ⊎ (i + n ≤ k) → slice (set xs k v) i n ≡ slice xs i n
unfolding slice
slice-set_outside xs k v i zero h = refl
slice-set_outside xs k v i (suc n) h =
    ap₂ ◌∷◌ (get_or-set_ne xs k i v 0 (omega arith))
      (slice-set_outside xs k v (i + 1) n (omega arith))

-- A store just behind a block makes the block longer.
pub slice-set_behind :
    (xs : List ℕ) (k v i m n : ℕ)
    → i + m ≡ k
    → m + 1 ≡ n
    → k < length xs
    → slice (set xs k v) i n ≡ slice xs i m ++ v ∷ []
unfolding slice
slice-set_behind xs k v i m n e e' h =
    ap (slice (set xs k v) i) (sym e')
    ∙ slice-add (set xs k v) i m 1
    ∙ ap₂ ◌++◌ (slice-set_outside xs k v i m (inr (omega arith)))
        (ap (λ z. get_or (set xs k v) z 0 ∷ []) e ∙ ap (λ z. z ∷ []) (get_or-set_self xs k v 0 h))

pub length-memcpy :
    (dest : List ℕ) (i : ℕ) (src : List ℕ) (j n : ℕ) → length (memcpy dest i src j n) ≡ length dest
unfolding memcpy
length-memcpy dest i src j zero = refl
length-memcpy dest i src j (suc n) =
    length-memcpy _ (i + 1) src (j + 1) n ∙ length-set dest i (get_or src j 0)

-- `Memcpy` leaves what lies outside its destination alone.
pub slice-memcpy_outside :
    (dest : List ℕ) (i : ℕ) (src : List ℕ) (j m k n : ℕ)
    → (k + n ≤ i) ⊎ (i + m ≤ k)
    → slice (memcpy dest i src j m) k n ≡ slice dest k n
unfolding memcpy
slice-memcpy_outside dest i src j zero k n h = refl
slice-memcpy_outside dest i src j (suc m) k zero h = unfold slice in refl
slice-memcpy_outside dest i src j (suc m) k (suc n) h =
    slice-memcpy_outside _ (i + 1) src (j + 1) m k (suc n) (omega arith)
    ∙ slice-set_outside dest i (get_or src j 0) k (suc n) (omega arith)

-- What `Memcpy` copied is read at the destination.
pub slice-memcpy :
    (dest : List ℕ) (i : ℕ) (src : List ℕ) (j n : ℕ)
    → i + n ≤ length dest
    → slice (memcpy dest i src j n) i n ≡ slice src j n
unfolding memcpy slice
slice-memcpy dest i src j zero h = refl
slice-memcpy dest i src j (suc n) h =
    let d : List ℕ = set dest i (get_or src j 0) in
    let size : length d ≡ length dest = length-set dest i (get_or src j 0) in
    ap₂ ◌∷◌
      (ap (λ l. get_or l 0 0) (slice-memcpy_outside d (i + 1) src (j + 1) n i 1 (omega arith))
        ∙ get_or-set_self dest i (get_or src j 0) 0 (omega arith))
      (slice-memcpy d (i + 1) src (j + 1) n (omega arith))

-- A part of a part.
pub take-slice : (xs : List ℕ) (i n k : ℕ) → k ≤ n → take k (slice xs i n) ≡ slice xs i k
unfolding slice
take-slice xs i n zero h = refl
take-slice xs i zero (suc k) h = absurd (omega arith)
take-slice xs i (suc n) (suc k) h =
    ap (◌∷◌ (get_or xs i 0)) (take-slice xs (i + 1) n k (omega arith))

pub drop-slice :
    (xs : List ℕ) (i n k : ℕ) → k ≤ n → drop k (slice xs i n) ≡ slice xs (i + k) (n - k)
unfolding slice
drop-slice xs i n zero h = ap₂ (slice xs) (omega arith) (omega arith)
drop-slice xs i zero (suc k) h = absurd (omega arith)
drop-slice xs i (suc n) (suc k) h =
    drop-slice xs (i + 1) n k (omega arith) ∙ ap₂ (slice xs) (omega arith) (omega arith)

-- The whole of an array.
pub slice_all : (xs : List ℕ) → slice xs 0 (length xs) ≡ xs
unfolding slice
slice_all [] = refl
slice_all (x ∷ xs) = ap (◌∷◌ x) (shift xs 0 (length xs) ∙ slice_all xs)
  where
    shift : (ys : List ℕ) (i n : ℕ) → slice (x ∷ ys) (i + 1) n ≡ slice ys i n
    shift ys i zero = refl
    shift ys i (suc n) =
        ap₂ ◌∷◌ (get_or_index (x ∷ ys) {j = suc i} 0 (omega arith)) (shift ys (i + 1) n)

pub set-append_cons :
    (front : List ℕ) (c v : ℕ) (back : List ℕ)
    → set (front ++ c ∷ back) (length front) v ≡ front ++ v ∷ back
set-append_cons [] c v back = refl
set-append_cons (x ∷ front) c v back = ap (◌∷◌ x) (set-append_cons front c v back)

-- A store at the end of `front`.
pub set_next :
    (front : List ℕ) (c v : ℕ) (back : List ℕ)
    → set (front ++ c ∷ back) (length front) v ≡ (front ++ v ∷ []) ++ back
set_next front c v back = set-append_cons front c v back ∙ sym (append_assoc front (v ∷ []) back)

pub length_next : (front : List ℕ) (c : ℕ) → length front + 1 ≡ length (front ++ c ∷ [])
length_next front c = omega (arith, length-append front (c ∷ []))

memset_behind :
    (front s : List ℕ) (n : ℕ)
    → length s ≡ n
    → memset_loop (front ++ s) (length front) 0 n ≡ front ++ replicate n 0
unfolding memset_loop
memset_behind front [] zero e = refl
memset_behind front (x ∷ s) zero e = absurd (omega arith)
memset_behind front [] (suc n) e = absurd (omega arith)
memset_behind front (x ∷ s) (suc n) e =
    rw (set_next front x 0 s, length_next front 0)
      (memset_behind (front ++ 0 ∷ []) s n (omega arith)
        ∙ append_assoc front (0 ∷ []) (replicate n 0))

-- `Memset` of a whole array.
pub memset_all : (s : List ℕ) (n : ℕ) → length s ≡ n → memset s 0 0 n ≡ replicate n 0
unfolding memset
memset_all s n e = memset_behind [] s n e
