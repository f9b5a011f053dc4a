-- ===== src/ListHead/Ring.antt =====
-- What a list head represents: the addresses of its elements, in order.
use cube.Prelude.{ℕ, ◌≡◌, ◌≢◌, sym, ◌∙◌, List, [], ◌∷◌, ◌++◌, All}
use cube.ListHead.{Store}

-- `a` leads through `xs` to `b`, forwards and backwards.
abbrev pub Linked : Store → ℕ → List ℕ → ℕ → Type 0
Linked s a [] b = (s.next a ≡ b) × (s.prev b ≡ a)
Linked s a (x ∷ xs) b = (s.next a ≡ x) × (s.prev x ≡ a) × Linked s x xs b

abbrev pub Fresh : ℕ → List ℕ → Type 0
Fresh k [] = Unit
Fresh k (x ∷ xs) = (k ≢ x) × Fresh k xs

abbrev pub Distinct : List ℕ → Type 0
Distinct [] = Unit
Distinct (x ∷ xs) = Fresh x xs × Distinct xs

-- The list at `head` has the elements `xs`: a ring without repetition.
pub record Ring (s : Store) (head : ℕ) (xs : List ℕ) : Type 0 where
  pub linked : Linked s head xs head
  pub distinct : Distinct (head ∷ xs)

-- The last of `a ∷ xs`, and the first of `xs ++ b ∷ []`.
abbrev pub last : ℕ → List ℕ → ℕ
last a [] = a
last a (x ∷ xs) = last x xs

abbrev pub first : List ℕ → ℕ → ℕ
first [] b = b
first (x ∷ xs) b = x

pub prev-last : (s : Store) (a : ℕ) (xs : List ℕ) (b : ℕ) → Linked s a xs b → s.prev b ≡ last a xs
prev-last s a [] b l = l.1
prev-last s a (x ∷ xs) b l = prev-last s x xs b l.2

pub next-first : (s : Store) (a : ℕ) (xs : List ℕ) (b : ℕ) → Linked s a xs b → s.next a ≡ first xs b
next-first s a [] b l = l.0
next-first s a (x ∷ xs) b l = l.0

pub ne-last : (k a : ℕ) (xs : List ℕ) → k ≢ a → Fresh k xs → k ≢ last a xs
ne-last k a [] h f = h
ne-last k a (x ∷ xs) h f = ne-last k x xs f.0 f.1

pub ne-first : (k : ℕ) (xs : List ℕ) (b : ℕ) → k ≢ b → Fresh k xs → k ≢ first xs b
ne-first k [] b h f = h
ne-first k (x ∷ xs) b h f = f.0

pub Fresh-append : (k : ℕ) (xs ys : List ℕ) → Fresh k xs → Fresh k ys → Fresh k (xs ++ ys)
Fresh-append k [] ys f g = g
Fresh-append k (x ∷ xs) ys f g = (f.0, Fresh-append k xs ys f.1 g)

pub Fresh-append_left : (k : ℕ) (xs ys : List ℕ) → Fresh k (xs ++ ys) → Fresh k xs
Fresh-append_left k [] ys f = tt
Fresh-append_left k (x ∷ xs) ys f = (f.0, Fresh-append_left k xs ys f.1)

pub Fresh-append_right : (k : ℕ) (xs ys : List ℕ) → Fresh k (xs ++ ys) → Fresh k ys
Fresh-append_right k [] ys f = f
Fresh-append_right k (x ∷ xs) ys f = Fresh-append_right k xs ys f.1

-- A part of a linked list is only read at its own addresses.
pub Linked-frame :
    (s t : Store) (a : ℕ) (xs : List ℕ) (b : ℕ)
    → All (λ k. t.next k ≡ s.next k) (a ∷ xs)
    → All (λ k. t.prev k ≡ s.prev k) (xs ++ b ∷ [])
    → Linked s a xs b
    → Linked t a xs b
Linked-frame s t a [] b n p l = (n.0 ∙ l.0, p.0 ∙ l.1)
Linked-frame s t a (x ∷ xs) b n p l = (n.0 ∙ l.0, p.0 ∙ l.1, Linked-frame s t x xs b n.1 p.1 l.2)

-- A field that was stored at `p` and at `q` is as before elsewhere.
pub unchanged :
    (f g : ℕ → ℕ) (p q : ℕ) (xs : List ℕ)
    → ((k : ℕ) → k ≢ p → k ≢ q → g k ≡ f k)
    → Fresh p xs
    → Fresh q xs
    → All (λ k. g k ≡ f k) xs
unchanged f g p q [] h n m = tt
unchanged f g p q (x ∷ xs) h n m =
    (h x (λ e. n.0 (sym e)) (λ e. m.0 (sym e)), unchanged f g p q xs h n.1 m.1)
