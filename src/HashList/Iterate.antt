-- ===== src/HashList/Iterate.antt =====
-- Walking over the records of the hash list.
use cube.Prelude.{
  ℕ, zero, suc, ◌+◌, ◌≡◌, ◌≢◌, refl, sym, ap, ◌∙◌, subst, List, [], ◌∷◌, ◌++◌, Option, none, some,
  false, arith, ◌==◌, All, length, drop, append_assoc, length-append,
}
use cube.HashList.{Node, UuidHead, HashList, chain}
use cube.HashList.Cursor.{
  first_node, nodes_after, next_node, visit, hashlist_get_first, hashlist_get_next,
}

-- The nodes of a chain have different addresses.
abbrev pub Apart : List Node → Type 0
Apart [] = Unit
Apart (n ∷ ns) = All (λ m. n.slot ≢ m.slot) ns × Apart ns

-- All records, chain by chain.
pub nodes : List (List Node) → List Node
nodes [] = []
nodes (ns ∷ table) = ns ++ nodes table

-- What the calls deliver for these records.
abbrev pub heads : List Node → List (Option UuidHead)
heads [] = []
heads (n ∷ ns) = some n.head ∷ heads ns

unfoldable pub walk : ℕ → HashList → List (Option UuidHead)
walk zero t = []
walk (suc n) t = let (rec, t') = hashlist_get_next t in rec ∷ walk n t'

All-at {ℓ κ} :
    {A : Type ℓ} (P : A → Type κ) (xs : List A) (x : A) (ys : List A) → All P (xs ++ x ∷ ys) → P x
All-at P [] x ys h = h.0
All-at P (y ∷ xs) x ys h = All-at P xs x ys h.1

nodes_after-append :
    (xs : List Node) (n : Node) (ys : List Node)
    → Apart (xs ++ n ∷ ys)
    → nodes_after n.slot (xs ++ n ∷ ys) ≡ ys
unfolding nodes_after
nodes_after-append [] n ys h = ground arith
nodes_after-append (x ∷ xs) n ys h =
    let ne = All-at (λ m. x.slot ≢ m.slot) xs n ys h.0 in
    let differ : (x.slot == n.slot) ≡ false = ground arith in
    rw differ (nodes_after-append xs n ys h.1)

chain-length_append :
    (before : List (List Node)) (c : List Node) (after : List (List Node))
    → chain (before ++ c ∷ after) (length before) ≡ c
chain-length_append [] c after = refl
chain-length_append (b ∷ before) c after = chain-length_append before c after

drop-suc_append :
    (k : ℕ) (before : List (List Node)) (c : List Node) (after : List (List Node))
    → k ≡ suc (length before)
    → drop k (before ++ c ∷ after) ≡ after
drop-suc_append zero before c after e = absurd (omega arith)
drop-suc_append (suc zero) [] c after e = refl
drop-suc_append (suc (suc k)) [] c after e = absurd (omega arith)
drop-suc_append (suc k) (b ∷ before) c after e = drop-suc_append k before c after (omega arith)

-- `n` in the chain `i` of the table, with the records `rest` behind it.
record Spot (table : List (List Node)) (i : ℕ) (n : Node) (rest : List Node) : Type 0 where
  before : List (List Node)
  passed : List Node
  behind : List Node
  after : List (List Node)
  split : table ≡ before ++ (passed ++ n ∷ behind) ∷ after
  index : i ≡ length before
  left : rest ≡ behind ++ nodes after

-- Where a search for the first of the records `rest` stops.
Stops : List (List Node) → List Node → Option (ℕ × Node) → Type 0
Stops table [] o = o ≡ none
Stops table (n ∷ rest) o = (i : ℕ) × (o ≡ some (i, n)) × Spot table i n rest

first_node-Stops :
    (front table : List (List Node)) (i : ℕ)
    → i ≡ length front
    → Stops (front ++ table) (nodes table) (first_node i table)
unfolding first_node nodes Stops
first_node-Stops front [] i e = refl
first_node-Stops front ([] ∷ table) i e =
    subst (λ whole. Stops whole (nodes table) (first_node (i + 1) table))
      (append_assoc front ([] ∷ []) table)
      (first_node-Stops (front ++ [] ∷ []) table (i + 1)
        (omega (arith, e, length-append front ([] ∷ []))))
first_node-Stops front ((n ∷ ns) ∷ table) i e = (
  i,
  refl,
  record {
    before = front;
    passed = [];
    behind = ns;
    after = table;
    split = refl;
    index = e;
    left = refl;
  },
)

next_node-Stops :
    (table : List (List Node)) (i : ℕ) (n : Node) (rest : List Node) (at : Spot table i n rest)
    → Stops table rest (next_node table i at.behind)
unfolding Stops next_node nodes
next_node-Stops table i n rest at =
    subst (λ rest'. Stops table rest' (next_node table i at.behind)) (sym at.left)
      (behind-Stops at.before at.after at.passed at.behind at.split at.index)
  where
    behind-Stops :
        (before after : List (List Node)) (passed behind : List Node)
        → table ≡ before ++ (passed ++ n ∷ behind) ∷ after
        → i ≡ length before
        → Stops table (behind ++ nodes after) (next_node table i behind)
    behind-Stops before after passed [] e l =
        let c : List Node = passed ++ n ∷ [] in
        subst (λ whole. Stops whole (nodes after) (first_node (i + 1) (drop (i + 1) whole))) (sym e)
          (subst (λ later. Stops (before ++ c ∷ after) (nodes after) (first_node (i + 1) later))
            (sym (drop-suc_append (i + 1) before c after (omega (arith, l))))
            (subst (λ whole. Stops whole (nodes after) (first_node (i + 1) after))
              (append_assoc before (c ∷ []) after)
              (first_node-Stops (before ++ c ∷ []) after (i + 1)
                (omega (arith, l, length-append before (c ∷ []))))))
    behind-Stops before after passed (y ∷ ys) e l = (
      i,
      refl,
      record {
        before = before;
        passed = passed ++ n ∷ [];
        behind = ys;
        after = after;
        split = e ∙ ap (λ c. before ++ c ∷ after) (sym (append_assoc passed (n ∷ []) (y ∷ ys)));
        index = l;
        left = refl;
      },
    )

-- `hashlist_get_next` takes the node behind the spot.
get_next-Spot :
    (t : HashList) (i : ℕ) (n : Node) (rest : List Node) (at : Spot t.table i n rest)
    → All Apart t.table
    → let t' : HashList = record t { curr_index = i; curr_head = some n.slot } in
      hashlist_get_next t' ≡ visit t' (next_node t.table i at.behind)
unfolding hashlist_get_next
get_next-Spot t i n rest at h =
    let c : List Node = at.passed ++ n ∷ at.behind in
    let apart : Apart c = All-at Apart at.before c at.after (subst (All Apart) at.split h) in
    let at_chain : chain t.table i ≡ c =
      ap (λ table. chain table i) at.split
      ∙ ap (chain (at.before ++ c ∷ at.after)) at.index
      ∙ chain-length_append at.before c at.after in
    ap (λ ns. visit (record t { curr_index = i; curr_head = some n.slot }) (next_node t.table i ns))
      (ap (nodes_after n.slot) at_chain ∙ nodes_after-append at.passed n at.behind apart)

visit-walk :
    (rest : List Node) (t : HashList) (o : Option (ℕ × Node))
    → All Apart t.table
    → Stops t.table rest o
    → let (rec, t') = visit t o in rec ∷ walk (length rest) t' ≡ heads rest ++ none ∷ []
unfolding visit walk Stops
visit-walk [] t o h s = rw s refl
visit-walk (n ∷ rest) t o h (i, e, at) =
    let t' : HashList = record t { curr_index = i; curr_head = some n.slot } in
    rw e (
      ap (◌∷◌ (some n.head)) (
        rw (get_next-Spot t i n rest at h) (
          visit-walk rest t' (next_node t.table i at.behind) h
            (next_node-Stops t.table i n rest at))))

-- `hashlist_get_first` and then as many calls of `hashlist_get_next` as there are records deliver
-- every record, chain by chain in the order of insertion, and then NULL, when the nodes of each
-- chain have different addresses.
pub get_first-walk :
    (t : HashList)
    → All Apart t.table
    → let (rec, t') = hashlist_get_first t in
      rec ∷ walk (length (nodes t.table)) t' ≡ heads (nodes t.table) ++ none ∷ []
unfolding hashlist_get_first
get_first-walk t h =
    visit-walk (nodes t.table) t (first_node 0 t.table) h (first_node-Stops [] t.table 0 refl)
