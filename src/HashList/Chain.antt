-- ===== src/HashList/Chain.antt =====
-- One chain: what an insertion and a removal do to searches.
use cube.Prelude.{
  ℕ, ◌≡◌, ◌≢◌, refl, List, [], ◌∷◌, Option, none, some, true, arith, is_zero, if◌then◌else◌, inl,
  inr, Bool-cases, All,
}
use cube.HashList.{Node, comp_uuid, snoc, list_find_uuidelem, del_found}
use cube.HashList.Uuid.{IsUuid, comp_uuid_iff}

abbrev pub or_else : Option Node → Option Node → Option Node
or_else (some n) m = some n
or_else none m = m

-- The node itself, if it is the one that is looked for.
abbrev pub match_node : Node → List ℕ → Option Node
match_node n uuid = if is_zero (comp_uuid n.head.uuid uuid) then some n else none

abbrev pub HasUuids : List Node → Type 0
HasUuids ns = All (λ n. IsUuid n.head.uuid) ns

pub find-snoc :
    (ns : List Node) (n : Node) (uuid : List ℕ)
    → list_find_uuidelem (snoc ns n) uuid ≡ or_else (list_find_uuidelem ns uuid) (match_node n uuid)
unfolding list_find_uuidelem snoc
find-snoc [] n uuid = ground arith
find-snoc (m ∷ ns) n uuid = ground (arith, find-snoc ns n uuid)

pub del_found-snoc :
    (ns : List Node) (n : Node) (uuid : List ℕ)
    → list_find_uuidelem ns uuid ≡ none
    → is_zero (comp_uuid n.head.uuid uuid) ≡ true
    → del_found (snoc ns n) uuid ≡ ns
unfolding list_find_uuidelem snoc del_found
del_found-snoc [] n uuid e s = rw s
del_found-snoc (m ∷ ns) n uuid e s = ground (arith, del_found-snoc ns n uuid)

-- A removal does not touch other uuids.
pub find-del_found :
    (ns : List Node) (uuid other : List ℕ)
    → HasUuids ns
    → IsUuid uuid
    → IsUuid other
    → uuid ≢ other
    → list_find_uuidelem (del_found ns uuid) other ≡ list_find_uuidelem ns other
unfolding list_find_uuidelem del_found
find-del_found [] uuid other h v w ne = refl
find-del_found (n ∷ ns) uuid other h v w ne =
    let same = comp_uuid_iff n.head.uuid uuid h.0 v in
    let same' = comp_uuid_iff n.head.uuid other h.0 w in
    ground (arith, same.0, same'.0, find-del_found ns uuid other)

pub snoc-HasUuids :
    (ns : List Node) (n : Node) → HasUuids ns → IsUuid n.head.uuid → HasUuids (snoc ns n)
unfolding snoc
snoc-HasUuids [] n h v = (v, tt)
snoc-HasUuids (m ∷ ns) n h v = (h.0, snoc-HasUuids ns n h.1 v)

pub del_found-HasUuids :
    (ns : List Node) (uuid : List ℕ) → HasUuids ns → HasUuids (del_found ns uuid)
unfolding del_found
del_found-HasUuids [] uuid h = tt
del_found-HasUuids (n ∷ ns) uuid h = elim (Bool-cases (is_zero (comp_uuid n.head.uuid uuid))) [
  | inl found ↦ rw found h.1
  | inr on ↦ rw on (h.0, del_found-HasUuids ns uuid h.1)
]
