-- ===== src/PointerQueue/Put.antt =====
-- A put to a pointer queue is one to the bounded queue of its contents.
use cube.Prelude.{
  ℕ, ◌+◌, ◌-◌, ◌≤◌, ◌<◌, ◌≡◌, refl, sym, ap₂, ◌∙◌, inl, inr, slice_index, slice-set_behind, false,
  ℤ, pos, enospc, Option, none, some, List, [], ◌∷◌, ◌++◌, true, arith, leb, ap, Bool-cases, ◌==◌,
  if◌then◌else◌, length, set, length-set, get_or-set_self, slice, slice-set_outside, length-slice,
  length-append, append_assoc,
}
use cube.Fifo
use cube.Fifo.{Op, put, get}
use cube.PointerQueue.{PointerQueue, pointer_queue_put}
use cube.PointerQueue.Contents.{IsValid, contents_of, contents, HeadIn, ring}

module _ (buffer : List ℕ) (size tail h x : ℕ) (room : length buffer ≡ size) where
  abbrev old : List ℕ
  old = contents_of buffer size tail (some h)

  abbrev Adds : ℕ → Type 0
  Adds site = contents_of (set buffer site x) size tail (some site) ≡ old ++ x ∷ []

  length-old :
      h < size
      → tail < size
      → length old ≡ (if leb tail h then h + 1 - tail else size - tail + (h + 1))
  length-old _ _ = ground (
    arith,
    length-slice buffer tail (h + 1 - tail),
    length-append (slice buffer tail (size - tail)) (slice buffer 0 (h + 1)),
    length-slice buffer tail (size - tail),
    length-slice buffer 0 (h + 1),
  )

  Adds-ahead : tail ≤ h → h + 1 < size → Adds (h + 1)
  Adds-ahead order lt =
      let l : leb tail h ≡ true = ground arith in
      let l' : leb tail (h + 1) ≡ true = ground arith in
      rw (l, l')
        (slice-set_behind buffer (h + 1) x tail (h + 1 - tail) (h + 1 + 1 - tail) (omega arith)
          (omega arith) (omega arith))

  Adds-behind : h + 1 < tail → tail < size → Adds (h + 1)
  Adds-behind order lt =
      let l : leb tail h ≡ false = ground arith in
      let l' : leb tail (h + 1) ≡ false = ground arith in
      rw (l, l')
        (ap₂ ◌++◌ (slice-set_outside buffer (h + 1) x tail (size - tail) (inl (omega arith))) (
            slice-set_behind buffer (h + 1) x 0 (h + 1) (h + 1 + 1) (omega arith) refl
              (omega arith))
          ∙ sym (append_assoc (slice buffer tail (size - tail)) (slice buffer 0 (h + 1)) (x ∷ [])))

  Adds-round : 0 < tail → tail ≤ h → h + 1 ≡ size → Adds 0
  Adds-round low order e =
      let l : leb tail h ≡ true = ground arith in
      let l' : leb tail 0 ≡ false = ground arith in
      rw (l, l')
        (ap₂ ◌++◌
          (slice-set_outside buffer 0 x tail (size - tail) (inl (omega arith))
            ∙ slice_index buffer refl (omega arith))
          (slice-set_behind buffer 0 x 0 0 1 (omega arith) (omega arith) (omega arith)
            ∙ unfold slice in refl))

put_on-full : (cap : ℕ) (q : List ℕ) (x : ℕ) → length q ≡ cap → Fifo.put_on cap q x ≡ (enospc, q)
unfolding Fifo.put_on
put_on-full cap q x e = ground arith

put_on-free :
    (cap : ℕ) (q : List ℕ) (x : ℕ) → length q < cap → Fifo.put_on cap q x ≡ (pos 0, q ++ x ∷ [])
unfolding Fifo.put_on
put_on-free cap q x e = ground arith

-- A put on `q` that gave `out`: the new queue is valid, of the same size, and with the status it is
-- what the bounded queue of `size` pointers gives.
abbrev pub Puts : PointerQueue → ℕ → ℤ × PointerQueue → Type 0
Puts q x out =
    IsValid out.1
    × (out.1.size ≡ q.size)
    × ((out.0, contents out.1) ≡ Fifo.put_on q.size (contents q) x)

module _ (buffer : List ℕ) (size tail x : ℕ) (room : length buffer ≡ size)
    (some_room : 0 < size) where
  grown :
      (head : Option ℕ) (site : ℕ)
      → contents_of (set buffer site x) size tail (some site)
        ≡ contents (ring buffer size tail head) ++ x ∷ []
      → length (contents (ring buffer size tail head)) < size
      → site < size
      → tail < size
      → Puts
          (ring buffer size tail head)
          x
          (pos 0, record { buffer = set buffer site x; size = size; head = some site; tail = tail })
  grown head site e free h h' = (
    record { room = length-set buffer site x ∙ room; some_room = some_room; sites = (h, h') },
    refl,
    ap (λ l. (pos 0, l)) e ∙ sym (put_on-free size (contents (ring buffer size tail head)) x free),
  )

  put_at :
      (head : Option ℕ)
      → HeadIn size tail head
      → Puts (ring buffer size tail head) x (pointer_queue_put (ring buffer size tail head) x)
  unfolding pointer_queue_put
  put_at none e =
      grown none 0
        (unfold slice in rw e (ap (λ z. z ∷ []) (get_or-set_self buffer 0 x 0 (omega arith))))
        some_room some_room (omega arith)
  put_at (some h) (hh, ht) =
      let size_old = length-old buffer size tail h x room hh ht in
      elim (Bool-cases (h + 1 == size)) [
        | inl top ↦ elim (Bool-cases (tail == 0)) [
          | inl full ↦
              rw (top, full)
                (
                  v hh ht,
                  refl,
                  sym (
                      put_on-full size (contents (ring buffer size tail (some h))) x
                        (ground arith)),
                )
          | inr free ↦
              rw (top, free)
                (grown (some h) 0
                  (Adds-round buffer size tail h x room (ground arith) (ground arith)
                    (ground arith))
                  (ground arith) some_room ht)
        ]
        | inr below ↦ elim (Bool-cases (h + 1 == tail)) [
          | inl full ↦
              rw (below, full)
                (
                  v hh ht,
                  refl,
                  sym (
                      put_on-full size (contents (ring buffer size tail (some h))) x
                        (ground arith)),
                )
          | inr free ↦
              rw (below, free)
                (grown (some h) (h + 1)
                  (elim (Bool-cases (leb tail h)) [
                    | inl l ↦ Adds-ahead buffer size tail h x room (ground arith) (ground arith)
                    | inr l ↦ Adds-behind buffer size tail h x room (ground arith) ht
                  ])
                  (ground arith) (ground arith) ht)
        ]
      ]
    where
      v : h < size → tail < size → IsValid (ring buffer size tail (some h))
      v p q = record { room = room; some_room = some_room; sites = (p, q) }

-- `pointer_queue_put` returns the status of the bounded queue and leaves its contents; it keeps the
-- invariant.
pub pointer_queue_put_refines :
    (q : PointerQueue) (x : ℕ) → IsValid q → Puts q x (pointer_queue_put q x)
pointer_queue_put_refines q x v = put_at q.buffer q.size q.tail x v.room v.some_room q.head v.sites
