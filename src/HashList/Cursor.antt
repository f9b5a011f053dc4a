-- ===== src/HashList/Cursor.antt =====
-- The cursors of the hash list of cubelib/basefunc/basefunc.c: first and next record.
use cube.Prelude.{ℕ, ◌+◌, Option, none, some, List, [], ◌∷◌, ◌==◌, if◌then◌else◌, drop}
use cube.HashList.{Node, UuidHead, HashList, chain}

-- The first node in the chains from the index `i` on.
unfoldable pub first_node : ℕ → List (List Node) → Option (ℕ × Node)
first_node i [] = none
first_node i ([] ∷ table) = first_node (i + 1) table
first_node i ((n ∷ ns) ∷ table) = some (i, n)

-- The nodes behind the one at `slot` in its chain.
unfoldable pub nodes_after : ℕ → List Node → List Node
nodes_after slot [] = []
nodes_after slot (n ∷ ns) = if n.slot == slot then ns else nodes_after slot ns

unfoldable pub visit : HashList → Option (ℕ × Node) → Option UuidHead × HashList
visit t none = (none, record t { curr_index = 0; curr_head = none })
visit t (some (i, n)) = (some n.head, record t { curr_index = i; curr_head = some n.slot })

-- `hashlist_get_first`.
unfoldable pub hashlist_get_first : HashList → Option UuidHead × HashList
unfolding first_node visit
hashlist_get_first t = visit t (first_node 0 t.table)

unfoldable pub next_node : List (List Node) → ℕ → List Node → Option (ℕ × Node)
next_node table i [] = first_node (i + 1) (drop (i + 1) table)
next_node table i (n ∷ ns) = some (i, n)

-- `hashlist_get_next`: the node behind the current one, or the first one of a later chain.
unfoldable pub hashlist_get_next : HashList → Option UuidHead × HashList
unfolding next_node first_node nodes_after visit
hashlist_get_next t = elim t.curr_head [
  | none ↦ (none, t)
  | some slot ↦
      visit t (next_node t.table t.curr_index (nodes_after slot (chain t.table t.curr_index)))
]

-- What the two functions with a cursor of the caller return, and the cursor afterwards.
unfoldable pub visit_parall : Option (ℕ × Node) → Option UuidHead × ℕ × Option ℕ
visit_parall none = (none, 0, none)
visit_parall (some (i, n)) = (some n.head, i, some n.slot)

-- `hashlist_get_first_parall`.
unfoldable pub hashlist_get_first_parall : HashList → Option UuidHead × ℕ × Option ℕ
unfolding first_node visit_parall
hashlist_get_first_parall t = visit_parall (first_node 0 t.table)

-- `hashlist_get_next_parall`, with the cursor of the caller.
unfoldable pub hashlist_get_next_parall : HashList → ℕ → Option ℕ → Option UuidHead × ℕ × Option ℕ
unfolding next_node first_node nodes_after visit_parall
hashlist_get_next_parall t curr_index curr_head = elim curr_head [
  | none ↦ (none, curr_index, none)
  | some slot ↦
      visit_parall (next_node t.table curr_index (nodes_after slot (chain t.table curr_index)))
]
