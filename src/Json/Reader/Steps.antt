-- ===== src/Json/Reader/Steps.antt =====
-- Rounds of the reader of json.c that lead from one to the next, and children that are added.
use cube.Prelude.{
  ℕ, zero, suc, ◌+◌, ◌-◌, ◌<◌, ◌≡◌, refl, sym, ap, ap₂, subst, ◌∙◌, Bool, some, List, ℤ, arith,
  length,
}
use cube.Json.{Info, Node, Nodes, nil, cons, snoc}
use cube.Json.Spec.{Members, end, member, count, tree, trees}
use cube.Json.Reader.{
  Room, enough, Open, Focus, solved, returned, overflow, failed, overrun, Round, go, ended,
  with_child, one_round, rounds,
}
use cube.Json.Reader.Progress.{Shrinks, goes, one_round-Shrinks}

-- Rounds that go on.
pub data Steps : List ℕ → Focus → List ℕ → Focus → Type 0 where
  here : {str : List ℕ} {f : Focus} → Steps str f str f
  step :
      {str str₁ str₂ : List ℕ} {f f₁ f₂ : Focus}
      → one_round enough str f ≡ go str₁ f₁
      → Steps str₁ f₁ str₂ f₂
      → Steps str f str₂ f₂

-- A round from which others lead to a text and a focus.
pub data Leads : Round → List ℕ → Focus → Type 0 where
  leads : {str str₁ : List ℕ} {f f₁ : Focus} → Steps str f str₁ f₁ → Leads (go str f) str₁ f₁

pub Steps-trans :
    {str str₁ str₂ : List ℕ} {f f₁ f₂ : Focus}
    → Steps str f str₁ f₁
    → Steps str₁ f₁ str₂ f₂
    → Steps str f str₂ f₂
Steps-trans here t = t
Steps-trans (step e s) t = step e (Steps-trans s t)

pub Steps-Leads :
    {str str₁ : List ℕ} {f f₁ : Focus} {r : Round}
    → one_round enough str f ≡ r
    → Leads r str₁ f₁
    → Steps str f str₁ f₁
Steps-Leads e (leads s) = step e s

pub Leads-trans :
    {str str₁ : List ℕ} {f f₁ : Focus} {r : Round}
    → Leads r str f
    → Steps str f str₁ f₁
    → Leads r str₁ f₁
Leads-trans (leads s) t = leads (Steps-trans s t)

-- The children that a node gets, one after the other.
unfoldable pub adds : Bool → Open → Members → Open
adds isvalue o end = o
adds isvalue o (member name v ms) = adds isvalue (with_child o (tree isvalue name v)) ms

join : Nodes → Nodes → Nodes
join nil ns = ns
join (cons m ms) ns = cons m (join ms ns)

join-nil : (ns : Nodes) → join ns nil ≡ ns
unfolding join
join-nil nil = refl
join-nil (cons m ns) = ap (cons m) (join-nil ns)

join-snoc : (ns : Nodes) (m : Node) (ms : Nodes) → join (snoc ns m) ms ≡ join ns (cons m ms)
unfolding join snoc
join-snoc nil m ms = refl
join-snoc (cons n ns) m ms = ap (cons n) (join-snoc ns m ms)

-- A node with so many children.
abbrev pub grown : Info → ℕ → Nodes → Open
grown i k ks = record { info = record i { elem_no = k }; kids = ks }

adds-grown :
    (isvalue : Bool) (o : Open) (ms : Members)
    → adds isvalue o ms ≡ grown o.info (o.info.elem_no + count ms) (join o.kids (trees isvalue ms))
unfolding adds trees join
adds-grown isvalue o end = ap₂ (grown o.info) (omega arith) (sym (join-nil o.kids))
adds-grown isvalue o (member name v ms) =
    adds-grown isvalue (with_child o (tree isvalue name v)) ms
    ∙ ap₂ (grown o.info) (omega arith) (join-snoc o.kids (tree isvalue name v) (trees isvalue ms))

-- All children of a node that had none.
pub adds-trees :
    (isvalue : Bool) (i : Info) (ms : Members)
    → i.elem_no ≡ 0
    → adds isvalue (record { info = i; kids = nil }) ms ≡ grown i (count ms) (trees isvalue ms)
unfolding join
adds-trees isvalue i ms e =
    adds-grown isvalue (record { info = i; kids = nil }) ms
    ∙ ap (λ k. grown i k (trees isvalue ms)) (omega arith)

-- The children change neither the name nor the type of a node.
pub adds-type :
    (isvalue : Bool) (o : Open) (ms : Members)
    → (adds isvalue o ms).info.elem_type ≡ o.info.elem_type
adds-type isvalue o ms = ap (λ (p : Open). p.info.elem_type) (adds-grown isvalue o ms)

-- The loop is where the rounds lead, with fuel left.
record Reaches (memory : ℕ → Room) (fuel size : ℕ) (str str₁ : List ℕ) (f f₁ : Focus) : Type 0 where
  left : ℕ
  same : rounds memory fuel size str f ≡ rounds memory (suc left) size str₁ f₁

-- With memory for each round.
module _ (memory : ℕ → Room) (plenty : (n : ℕ) → memory n ≡ enough) where
  rounds-Reaches :
      (fuel size : ℕ) {str str₁ : List ℕ} {f f₁ : Focus}
      → length str < fuel
      → Steps str f str₁ f₁
      → Reaches memory fuel size str str₁ f f₁
  unfolding rounds
  rounds-Reaches zero size h s = absurd (omega arith)
  rounds-Reaches (suc fuel) size h here = record { left = fuel; same = refl }
  rounds-Reaches (suc fuel) size {str = str} {f = f} h (step {str₁ = str'} {f₁ = f'} r s) =
      let less : length str' < length str =
        went (subst (Shrinks (length str)) r (one_round-Shrinks enough str f)) in
      let rest = rounds-Reaches fuel size (omega arith) s in
      record { left = rest.left; same = rw (plenty (length str), r, rounds) rest.same }
    where
      went : {n : ℕ} {str' : List ℕ} {f' : Focus} → Shrinks n (go str' f') → length str' < n
      went (goes l) = l

  -- The loop from a text and a focus from which rounds lead to its last round.
  pub rounds-Steps :
      (fuel size : ℕ) {str str₁ str₂ : List ℕ} {f f₁ : Focus} {n : Node}
      → length str < fuel
      → Steps str f str₁ f₁
      → one_round enough str₁ f₁ ≡ ended str₂ n
      → rounds memory fuel size str f ≡ some (solved (size - length str₂) n)
  unfolding rounds
  rounds-Steps fuel size h s e = (rounds-Reaches fuel size h s).same ∙ rw (plenty _, e, rounds) refl

  pub rounds-overrun :
      (fuel size : ℕ) {str str₁ : List ℕ} {f f₁ : Focus}
      → length str < fuel
      → Steps str f str₁ f₁
      → one_round enough str₁ f₁ ≡ overrun
      → rounds memory fuel size str f ≡ some overflow
  unfolding rounds
  rounds-overrun fuel size h s e =
      (rounds-Reaches fuel size h s).same ∙ rw (plenty _, e, rounds) refl

  pub rounds-failed :
      (fuel size : ℕ) {str str₁ : List ℕ} {f f₁ : Focus} {status : ℤ}
      → length str < fuel
      → Steps str f str₁ f₁
      → one_round enough str₁ f₁ ≡ failed status
      → rounds memory fuel size str f ≡ some (returned status)
  unfolding rounds
  rounds-failed fuel size h s e =
      (rounds-Reaches fuel size h s).same ∙ rw (plenty _, e, rounds) refl
