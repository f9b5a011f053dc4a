-- ===== src/ListHead/Insert.antt =====
-- `List_add_tail` and `List_add` put an element at the end and at the front.
use cube.Prelude.{ℕ, ◌≢◌, sym, subst, List, [], ◌∷◌, ◌++◌, arith}
use cube.ListHead.{Store, init_list_head, insert_between, list_add, list_add_tail}
use cube.ListHead.Ring.{
  Linked, Fresh, Distinct, Ring, last, first, prev-last, next-first, ne-last, Fresh-append,
  Linked-frame, unchanged,
}

-- An initialised head is an empty list.
pub init_list_head-Ring : (p : ℕ) (s : Store) → Ring (init_list_head p s) p []
unfolding init_list_head
init_list_head-Ring p s = record { linked = (ground arith, ground arith); distinct = (tt, tt) }

-- Behind the last element.
insert_last :
    (s : Store) (new a : ℕ) (xs : List ℕ) (b : ℕ)
    → Linked s a xs b
    → Distinct (a ∷ xs)
    → Fresh new (a ∷ xs)
    → new ≢ b
    → Fresh b xs
    → Linked (insert_between new (last a xs) b s) a (xs ++ new ∷ []) b
unfolding insert_between
insert_last s new a [] b l d f nb fb = (ground arith, ground arith, (ground arith, ground arith))
insert_last s new a (x ∷ xs) b l d f nb fb =
    let apart : a ≢ last x xs = ne-last a x xs d.0.0 d.0.1 in
    (ground arith, ground arith, insert_last s new x xs b l.2 d.1 f.1 nb fb.1)

Distinct-snoc : (k : ℕ) (xs : List ℕ) → Distinct xs → Fresh k xs → Distinct (xs ++ k ∷ [])
Distinct-snoc k [] d f = (tt, tt)
Distinct-snoc k (x ∷ xs) d f =
    (Fresh-append x xs (k ∷ []) d.0 ((λ e. f.0 (sym e)), tt), Distinct-snoc k xs d.1 f.1)

-- `List_add_tail` puts a new element behind all others.
pub list_add_tail-Ring :
    (s : Store) (new head : ℕ) (xs : List ℕ)
    → Ring s head xs
    → Fresh new (head ∷ xs)
    → Ring (list_add_tail new head s) head (xs ++ new ∷ [])
unfolding list_add_tail
list_add_tail-Ring s new head xs r f = record {
  linked =
      rw (prev-last s head xs head r.linked)
        (insert_last s new head xs head r.linked r.distinct f f.0 r.distinct.0);
  distinct = Distinct-snoc new (head ∷ xs) r.distinct f;
}

insert_first :
    (s : Store) (new a : ℕ) (xs : List ℕ) (b : ℕ)
    → Linked s a xs b
    → Distinct (a ∷ xs)
    → Fresh new (a ∷ xs)
    → new ≢ b
    → Fresh b xs
    → Linked (insert_between new a (first xs b) s) a (new ∷ xs) b
unfolding insert_between
insert_first s new a [] b l d f nb fb = (ground arith, ground arith, (ground arith, ground arith))
insert_first s new a (x ∷ xs) b l d f nb fb = (
  ground arith,
  ground arith,
  (
    ground arith,
    ground arith,
    Linked-frame s _ x xs b (unchanged s.next _ a new (x ∷ xs) (λ k p q. ground arith) d.0 f.1)
        (unchanged s.prev _ x new (xs ++ b ∷ []) (λ k p q. ground arith)
          (Fresh-append x xs (b ∷ []) d.1.0 ((λ e. fb.0 (sym e)), tt))
          (Fresh-append new xs (b ∷ []) f.1.1 (nb, tt)))
        l.2,
  ),
)

-- `List_add` puts a new element in front of all others.
pub list_add-Ring :
    (s : Store) (new head : ℕ) (xs : List ℕ)
    → Ring s head xs
    → Fresh new (head ∷ xs)
    → Ring (list_add new head s) head (new ∷ xs)
unfolding list_add
list_add-Ring s new head xs r f = record {
  linked =
      subst (λ n. Linked (insert_between new head n s) head (new ∷ xs) head)
        (sym (next-first s head xs head r.linked))
        (insert_first s new head xs head r.linked r.distinct f f.0 r.distinct.0);
  distinct = (((λ e. f.0 (sym e)), r.distinct.0), (f.1, r.distinct.1));
}
