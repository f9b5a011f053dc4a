-- ===== src/Route/NodeList.antt =====
-- The lists of records of route_tree.c with their cursor, NODE_LIST.
use cube.Prelude.{
  ℕ, zero, suc, ◌+◌, ◌≡◌, refl, ap, ◌∙◌, Bool, true, false, Bool-cases, inl, inr, Option, none,
  some, List, [], ◌∷◌, ◌++◌, ℤ, pos, einval, ltb, arith, if◌then◌else◌, length, get_or,
  get_or_beyond,
}

-- Where a cursor stands: at the head of the list, or at an entry.
pub data Site : Type 0 where
  head_entry : Site
  entry : ℕ → Site

-- `NODE_LIST`, with the records of its entries in their order. A record is a pointer, 0 is NULL, and
-- so is the record of the head. The cursor may be NULL.
pub record NodeList : Type 0 where
  pub records : List ℕ
  pub policy_num : ℕ
  pub curr : Option Site

-- `_init_node_list`.
abbrev pub init_node_list : NodeList
init_node_list = record { records = []; policy_num = 0; curr = none }

-- `_node_list_add`, with whether there was memory for the entry: whether an entry is returned.
unfoldable pub node_list_add : Bool → NodeList → ℕ → Bool × NodeList
node_list_add false l new = (false, l)
node_list_add true l new =
    (true, record l { records = l.records ++ new ∷ []; policy_num = l.policy_num + 1 })

-- The entry behind `k` - 1, or the head.
abbrev pub site_at : List ℕ → ℕ → Site
site_at records k = if ltb k (length records) then entry k else head_entry

abbrev pub record_at : List ℕ → Site → ℕ
record_at records head_entry = 0
record_at records (entry k) = get_or records k 0

-- The status, `*policy` and the list, with the cursor at a site.
abbrev pub moved : NodeList → Site → ℤ × ℕ × NodeList
moved l site = (pos 0, record_at l.records site, record l { curr = some site })

-- `_dispatch_policy_getfirst`.
unfoldable pub dispatch_policy_getfirst : NodeList → ℤ × ℕ × NodeList
dispatch_policy_getfirst l = moved l (site_at l.records 0)

-- `_dispatch_policy_getnext`. On a NULL cursor `*policy` is not set, which is 0 here.
unfoldable pub dispatch_policy_getnext : NodeList → ℤ × ℕ × NodeList
dispatch_policy_getnext l = elim l.curr [
  | none ↦ (einval, 0, l)
  | some site ↦ elim site [
    | head_entry ↦ (pos 0, 0, l)
    | entry k ↦ moved l (site_at l.records (k + 1))
  ]
]

-- The call of getfirst and so many calls of getnext.
pub walk : ℕ → NodeList → ℤ × ℕ × NodeList
unfolding dispatch_policy_getfirst dispatch_policy_getnext
walk zero l = dispatch_policy_getfirst l
walk (suc k) l = dispatch_policy_getnext (walk k l).2

getnext-moved :
    (l : NodeList) (k : ℕ)
    → dispatch_policy_getnext (moved l (site_at l.records k)).2
      ≡ moved l (site_at l.records (k + 1))
unfolding dispatch_policy_getnext
getnext-moved l k = elim (Bool-cases (ltb k (length l.records))) [
  | inl inside ↦ rw inside refl
  | inr outside ↦
      let past : ltb (k + 1) (length l.records) ≡ false = ground arith in rw (outside, past) refl
]

walk-moved : (k : ℕ) (l : NodeList) → walk k l ≡ moved l (site_at l.records k)
unfolding walk dispatch_policy_getfirst
walk-moved zero l = refl
walk-moved (suc k) l =
    ap (λ (r : ℤ × ℕ × NodeList). dispatch_policy_getnext r.2) (walk-moved k l)
    ∙ getnext-moved l k
    ∙ ap (λ j. moved l (site_at l.records j)) (omega arith)

record_at-site_at :
    (records : List ℕ) (k : ℕ) → record_at records (site_at records k) ≡ get_or records k 0
record_at-site_at records k = elim (Bool-cases (ltb k (length records))) [
  | inl inside ↦ rw inside refl
  | inr outside ↦ rw (outside, get_or_beyond records k 0 (ground arith)) refl
]

-- After `_dispatch_policy_getfirst` and any number of calls of `_dispatch_policy_getnext` the
-- status is 0, the record is the one in this place of the list, and NULL behind the last one for
-- every further call, and only the cursor has changed.
walk_lem :
    (l : NodeList) (k : ℕ)
    → ((walk k l).0 ≡ pos 0)
      × ((walk k l).1 ≡ get_or l.records k 0)
      × ((walk k l).2.records ≡ l.records)
      × ((walk k l).2.policy_num ≡ l.policy_num)
walk_lem l k = rw (walk-moved k l) (refl, record_at-site_at l.records k, refl, refl)
