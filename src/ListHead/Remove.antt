-- ===== src/ListHead/Remove.antt =====
-- `List_del` takes one element out of a list and makes it a list of its own.
use cube.Prelude.{ℕ, ◌≡◌, ◌≢◌, sym, List, [], ◌∷◌, ◌++◌, arith, ◌==◌, false, true}
use cube.ListHead.{Store, set_next, set_prev, list_del}
use cube.ListHead.Ring.{
  Linked, Fresh, Distinct, Ring, last, first, next-first, ne-last, ne-first, Fresh-append,
  Fresh-append_left, Fresh-append_right, Linked-frame, unchanged,
}

-- The store after `List_del x` where `p` and `n` are the neighbours of `x`.
abbrev removed : ℕ → ℕ → ℕ → Store → Store
removed x p n s = set_next x x (set_prev x x (set_next p n (set_prev n p s)))

list_del-removed :
    (s : Store) (x p n : ℕ) → s.prev x ≡ p → s.next x ≡ n → n ≢ x → list_del x s ≡ removed x p n s
unfolding list_del
list_del-removed s x p n e e' ne =
    let t : (n == x) ≡ false = ground arith in
    let t' : (x == n) ≡ false = ground arith in rw (e, e', t, t')

removed-Linked :
    (s : Store) (x a : ℕ) (xs ys : List ℕ) (b : ℕ)
    → Linked s a (xs ++ x ∷ ys) b
    → Distinct (a ∷ xs ++ x ∷ ys)
    → Fresh b (xs ++ x ∷ ys)
    → Linked (removed x (last a xs) (first ys b) s) a (xs ++ ys) b
removed-Linked s x a [] [] b l d f = (ground arith, ground arith)
removed-Linked s x a [] (y ∷ ys) b l d f = (
  ground arith,
  ground arith,
  Linked-frame s _ y ys b (unchanged s.next _ a x (y ∷ ys) (λ k p q. ground arith) d.0.1 d.1.0)
      (unchanged s.prev _ y x (ys ++ b ∷ []) (λ k p q. ground arith)
        (Fresh-append y ys (b ∷ []) d.1.1.0 ((λ e. f.1.0 (sym e)), tt))
        (Fresh-append x ys (b ∷ []) d.1.0.1 ((λ e. f.0 (sym e)), tt)))
      l.2.2,
)
removed-Linked s x a (z ∷ xs) ys b l d f =
    let ax : a ≢ x = (Fresh-append_right a xs (x ∷ ys) d.0.1).0 in
    let al : a ≢ last z xs = ne-last a z xs d.0.0 (Fresh-append_left a xs (x ∷ ys) d.0.1) in
    let zr : Fresh z (x ∷ ys) = Fresh-append_right z xs (x ∷ ys) d.1.0 in
    let zf : z ≢ first ys b = ne-first z ys b (λ e. f.0 (sym e)) zr.1 in
    let zx : z ≢ x = zr.0 in (ground arith, ground arith, removed-Linked s x z xs ys b l.2 d.1 f.1)

Distinct-remove : (x : ℕ) (xs ys : List ℕ) → Distinct (xs ++ x ∷ ys) → Distinct (xs ++ ys)
Distinct-remove x [] ys d = d.1
Distinct-remove x (z ∷ xs) ys d = (
  Fresh-append z xs ys (Fresh-append_left z xs (x ∷ ys) d.0)
      (Fresh-append_right z xs (x ∷ ys) d.0).1,
  Distinct-remove x xs ys d.1,
)

-- The neighbours of an element.
pub neighbours :
    (s : Store) (x a : ℕ) (xs ys : List ℕ) (b : ℕ)
    → Linked s a (xs ++ x ∷ ys) b
    → (s.prev x ≡ last a xs) × (s.next x ≡ first ys b)
neighbours s x a [] ys b l = (l.1, next-first s x ys b l.2)
neighbours s x a (z ∷ xs) ys b l = neighbours s x z xs ys b l.2

Fresh-after : (xs : List ℕ) (x : ℕ) (ys : List ℕ) → Distinct (xs ++ x ∷ ys) → Fresh x ys
Fresh-after [] x ys d = d.0
Fresh-after (z ∷ xs) x ys d = Fresh-after xs x ys d.1

-- `List_del` of any element leaves the others in their order, and makes the element a list of its
-- own.
pub list_del-Ring :
    (s : Store) (head x : ℕ) (xs ys : List ℕ)
    → Ring s head (xs ++ x ∷ ys)
    → Ring (list_del x s) head (xs ++ ys) × Ring (list_del x s) x []
list_del-Ring s head x xs ys r =
    let (p, n) = neighbours s x head xs ys head r.linked in
    let hx : head ≢ x = (Fresh-append_right head xs (x ∷ ys) r.distinct.0).0 in
    let ne : x ≢ first ys head =
      ne-first x ys head (λ e. hx (sym e)) (Fresh-after xs x ys r.distinct.1) in
    rw (list_del-removed s x (last head xs) (first ys head) p n (λ e. ne (sym e))) (
      record {
        linked = removed-Linked s x head xs ys head r.linked r.distinct r.distinct.0;
        distinct = Distinct-remove x (head ∷ xs) ys r.distinct;
      },
      record { linked = (ground arith, ground arith); distinct = (tt, tt) },
    )

-- A `List_del` of a head with no elements changes nothing.
pub list_del-alone : (s : Store) (head : ℕ) → Ring s head [] → list_del head s ≡ s
unfolding list_del
list_del-alone s head r = let e : (s.next head == head) ≡ true = ground arith in rw e
