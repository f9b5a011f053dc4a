-- ===== src/HashList/Parall.antt =====
-- Walking over the records of the hash list with a cursor of the caller.
use cube.Prelude.{ℕ, zero, suc, ◌≡◌, refl, ap, List, [], ◌∷◌, Option, none, some}
use cube.HashList.{Node, UuidHead, HashList, chain}
use cube.HashList.Cursor.{
  first_node, nodes_after, next_node, visit, hashlist_get_first, hashlist_get_next, visit_parall,
  hashlist_get_first_parall, hashlist_get_next_parall,
}
use cube.HashList.Iterate.{walk}

-- What `n` calls of `hashlist_get_next_parall` deliver.
pub walk_parall : ℕ → HashList → ℕ → Option ℕ → List (Option UuidHead)
walk_parall zero t i head = []
walk_parall (suc n) t i head =
    let (rec, i', head') = hashlist_get_next_parall t i head in rec ∷ walk_parall n t i' head'

-- The cursor of the caller takes the place of the one in the list.
abbrev Agree : ℕ → HashList → Type 0
Agree n t =
    (i : ℕ) (head : Option ℕ)
    → walk_parall n t i head ≡ walk n (record t { curr_index = i; curr_head = head })

visit_parall-visit :
    (n : ℕ) (t : HashList) (i : ℕ) (head : Option ℕ) (o : Option (ℕ × Node))
    → Agree n t
    → (let (rec, i', head') = visit_parall o in rec ∷ walk_parall n t i' head')
      ≡ (let (rec, t') = visit (record t { curr_index = i; curr_head = head }) o in rec ∷ walk n t')
unfolding visit_parall visit
visit_parall-visit n t i head none agree = ap (◌∷◌ none) (agree 0 none)
visit_parall-visit n t i head (some (j, m)) agree = ap (◌∷◌ (some m.head)) (agree j (some m.slot))

walk_parall-walk : (n : ℕ) (t : HashList) → Agree n t
unfolding walk_parall walk hashlist_get_next_parall hashlist_get_next
walk_parall-walk zero t i head = refl
walk_parall-walk (suc n) t i none = ap (◌∷◌ none) (walk_parall-walk n t i none)
walk_parall-walk (suc n) t i (some slot) =
    visit_parall-visit n t i (some slot) (next_node t.table i (nodes_after slot (chain t.table i)))
      (walk_parall-walk n t)

-- `hashlist_get_first_parall` and then `n` calls of `hashlist_get_next_parall` with a cursor of the
-- caller deliver what `hashlist_get_first` and `n` calls of `hashlist_get_next` deliver.
pub get_first_parall-walk :
    (n : ℕ) (t : HashList)
    → (let (rec, i, head) = hashlist_get_first_parall t in rec ∷ walk_parall n t i head)
      ≡ (let (rec, t') = hashlist_get_first t in rec ∷ walk n t')
unfolding hashlist_get_first_parall hashlist_get_first
get_first_parall-walk n t =
    visit_parall-visit n t t.curr_index t.curr_head (first_node 0 t.table) (walk_parall-walk n t)
