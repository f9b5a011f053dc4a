-- ===== src/ListQueue/Slots.antt =====
-- The list queue is a first-in first-out queue of the records in its slots.
use cube.Prelude.{
  ℕ, suc, ◌+◌, ◌≡◌, ◌≢◌, refl, sym, ap, ap₂, some, pos, List, [], ◌∷◌, ◌++◌, map, arith, length,
  length-append, append_assoc, subst, zero, ◌==◌, true, false,
}
use cube.ListHead.{Store, update, init_list_head}
use cube.ListHead.Ring.{Fresh, Ring, Linked-frame, unchanged, Fresh-append, Fresh-append_right}
use cube.ListHead.Insert.{list_add_tail-Ring}
use cube.ListHead.Remove.{list_del-Ring, neighbours}
use cube.ListQueue.{
  ListQueue, list_queue_put, list_queue_get, list_queue_getfirst, list_queue_getnext,
  list_queue_removecurr,
}

-- The queue has the slots `slots`, in order; no slot is at NULL.
pub record HasSlots (q : ListQueue) (slots : List ℕ) : Type 0 where
  pub ring : Ring q.store q.queue_list slots
  pub counted : q.record_num ≡ length slots
  pub nonnull : Fresh 0 slots

abbrev pub records : ListQueue → List ℕ → List ℕ
records q slots = map q.record_of slots

-- The initialisation of an element outside of a list leaves the list alone.
init_list_head-frame :
    (s : Store) (new head : ℕ) (xs : List ℕ)
    → Ring s head xs
    → Fresh new (head ∷ xs)
    → Ring (init_list_head new s) head xs
unfolding init_list_head
init_list_head-frame s new head xs r f = record {
  linked =
      Linked-frame s _ head xs head
        (unchanged s.next _ new new (head ∷ xs) (λ k p q. ground arith) f f)
        (unchanged s.prev _ new new (xs ++ head ∷ []) (λ k p q. ground arith) f' f') r.linked;
  distinct = r.distinct;
}
  where
    f' : Fresh new (xs ++ head ∷ [])
    f' = Fresh-append new xs (head ∷ []) f.1 (f.0, tt)

map-update-Fresh :
    (f : ℕ → ℕ) (k v : ℕ) (xs : List ℕ) → Fresh k xs → map (update f k v) xs ≡ map f xs
map-update-Fresh f k v [] h = refl
map-update-Fresh f k v (x ∷ xs) h = ap₂ ◌∷◌ (ground arith) (map-update-Fresh f k v xs h.1)

map-update_snoc :
    (f : ℕ → ℕ) (k v : ℕ) (xs : List ℕ)
    → Fresh k xs
    → map (update f k v) (xs ++ k ∷ []) ≡ map f xs ++ v ∷ []
map-update_snoc f k v [] h = ap (λ z. z ∷ []) (ground arith)
map-update_snoc f k v (x ∷ xs) h = ap₂ ◌∷◌ (ground arith) (map-update_snoc f k v xs h.1)

-- `list_queue_put` into a fresh slot adds the record behind the others and returns the new count.
pub list_queue_put-HasSlots :
    (q : ListQueue) (slots : List ℕ) (slot rec : ℕ)
    → HasSlots q slots
    → Fresh slot (q.queue_list ∷ slots)
    → 0 ≢ slot
    → let (n, q') = list_queue_put q (some slot) rec in
      (n ≡ pos (length slots + 1))
      × HasSlots q' (slots ++ slot ∷ [])
      × (records q' (slots ++ slot ∷ []) ≡ records q slots ++ rec ∷ [])
unfolding list_queue_put
list_queue_put-HasSlots q slots slot rec h f nz = (
  ap (λ n. pos (n + 1)) h.counted,
  record {
    ring =
        list_add_tail-Ring _ slot q.queue_list slots
          (init_list_head-frame q.store slot q.queue_list slots h.ring f) f;
    counted = omega (arith, h.counted, length-append slots (slot ∷ []));
    nonnull = Fresh-append 0 slots (slot ∷ []) h.nonnull (nz, tt);
  },
  map-update_snoc q.record_of slot rec slots f.1,
)

-- What a get gives, by the slots before it.
abbrev pub Gets : List ℕ → ListQueue → ℕ × ℕ × ListQueue → Type 0
Gets [] q (n, rec, q') = (n ≡ 0) × (rec ≡ 0) × (q' ≡ q)
Gets (s ∷ slots) q (n, rec, q') =
    (n ≡ length slots) × (rec ∷ records q' slots ≡ records q (s ∷ slots)) × HasSlots q' slots

-- `list_queue_get` on a queue with records takes the oldest one off and returns how many are left;
-- on an empty queue it delivers NULL and changes nothing.
pub list_queue_get-HasSlots :
    (q : ListQueue) (slots : List ℕ) → HasSlots q slots → Gets slots q (list_queue_get q)
unfolding list_queue_get
list_queue_get-HasSlots q [] h =
    let e : (q.record_num == 0) ≡ true = ground arith in rw e (refl, refl, refl)
list_queue_get-HasSlots q (s ∷ slots) h =
    let e : (q.record_num == 0) ≡ false = ground arith in
    rw (e, h.ring.linked.0)
      (
        omega arith,
        refl,
        record {
          ring = (list_del-Ring q.store q.queue_list s [] slots h.ring).0;
          counted = omega arith;
          nonnull = h.nonnull.1;
        },
      )

-- One step of a walk in the middle of the slots, and the step behind the last one.
module _ (q : ListQueue) (xs : List ℕ) (x : ℕ) where
  getnext_middle :
      (y : ℕ) (ys : List ℕ)
      → HasSlots q (xs ++ x ∷ y ∷ ys)
      → q.curr ≡ x
      → list_queue_getnext q ≡ (q.record_of y, record q { curr = y })
  unfolding list_queue_getnext
  getnext_middle y ys h e =
      let (p, n) = neighbours q.store x q.queue_list xs (y ∷ ys) q.queue_list h.ring.linked in
      let some_left : (q.record_num == 0) ≡ false =
        ground (arith, length-append xs (x ∷ y ∷ ys), h.counted) in
      let at_x : (x == 0) ≡ false =
        ground (arith, (Fresh-append_right 0 xs (x ∷ y ∷ ys) h.nonnull).0) in
      let not_head : (y == q.queue_list) ≡ false =
        ground (arith, (Fresh-append_right q.queue_list xs (x ∷ y ∷ ys) h.ring.distinct.0).1.0) in
      rw (some_left, e, at_x, n, not_head)

  getnext_last :
      HasSlots q (xs ++ x ∷ []) → q.curr ≡ x → list_queue_getnext q ≡ (0, record q { curr = 0 })
  unfolding list_queue_getnext
  getnext_last h e =
      let (p, n) = neighbours q.store x q.queue_list xs [] q.queue_list h.ring.linked in
      let some_left : (q.record_num == 0) ≡ false =
        ground (arith, length-append xs (x ∷ []), h.counted) in
      let at_x : (x == 0) ≡ false =
        ground (arith, (Fresh-append_right 0 xs (x ∷ []) h.nonnull).0) in
      let is_head : (q.queue_list == q.queue_list) ≡ true = ground arith in
      rw (some_left, e, at_x, n, is_head)

-- What `n` calls of `list_queue_getnext` deliver.
pub walk : ℕ → ListQueue → List ℕ
walk zero q = []
walk (suc n) q = let (rec, q') = list_queue_getnext q in rec ∷ walk n q'

walk-records :
    (q : ListQueue) (xs : List ℕ) (x : ℕ) (ys : List ℕ)
    → HasSlots q (xs ++ x ∷ ys)
    → q.curr ≡ x
    → walk (suc (length ys)) q ≡ records q ys ++ 0 ∷ []
unfolding walk
walk-records q xs x [] h e = rw (getnext_last q xs x h e)
walk-records q xs x (y ∷ ys) h e = rw (getnext_middle q xs x y ys h e) (
    ap (◌∷◌ (q.record_of y)) (
      walk-records (record q { curr = y }) (xs ++ x ∷ []) y ys
        (moved y (subst (HasSlots q) (sym (append_assoc xs (x ∷ []) (y ∷ ys))) h)) refl))
  where
    moved : {slots : List ℕ} (c : ℕ) → HasSlots q slots → HasSlots (record q { curr = c }) slots
    moved c h' = record { ring = h'.ring; counted = h'.counted; nonnull = h'.nonnull }

-- `list_queue_getfirst` and as many calls of `list_queue_getnext` as there are records deliver all
-- records in order, the oldest first, and then NULL.
getfirst-walk :
    (q : ListQueue) (x : ℕ) (xs : List ℕ)
    → HasSlots q (x ∷ xs)
    → let (rec, q') = list_queue_getfirst q in
      rec ∷ walk (length (x ∷ xs)) q' ≡ records q (x ∷ xs) ++ 0 ∷ []
unfolding list_queue_getfirst
getfirst-walk q x xs h =
    let e : (q.record_num == 0) ≡ false = ground (arith, h.counted) in
    rw (e, h.ring.linked.0)
      (ap (◌∷◌ (q.record_of x)) (
        walk-records (record q { curr = x }) [] x xs
          (record { ring = h.ring; counted = h.counted; nonnull = h.nonnull }) refl))

-- A record that `list_queue_removecurr` took at the front is delivered again by the next
-- `list_queue_get`: its slot, though freed, is still linked and counted.
pub removecurr-get :
    (q : ListQueue) (x : ℕ) (xs : List ℕ)
    → HasSlots q (x ∷ xs)
    → q.curr ≡ x
    → let (rec, q') = list_queue_removecurr q in
      (rec ≡ q.record_of x) × ((list_queue_get q').0 ≡ length xs) × ((list_queue_get q').1 ≡ rec)
unfolding list_queue_removecurr list_queue_get
removecurr-get q x xs h e =
    let some_left : (q.record_num == 0) ≡ false = ground (arith, h.counted) in
    let at_x : (x == 0) ≡ false = ground (arith, h.nonnull.0) in
    rw (some_left, e, at_x, some_left, h.ring.linked.0) (refl, omega (arith, h.counted), refl)
