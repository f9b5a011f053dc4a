-- ===== src/PointerQueue/Get.antt =====
-- A get from a pointer queue is one from the bounded queue of its contents.
use cube.Prelude.{
  ℕ, suc, ◌+◌, ◌-◌, ◌<◌, ◌≡◌, ◌≢◌, refl, ◌∙◌, inl, inr, slice_index, false, ℤ, Option, none, some,
  List, [], ◌∷◌, ◌++◌, true, arith, leb, ap, Bool-cases, ◌==◌, length, get_or, slice,
}
use cube.Fifo
use cube.Fifo.{Op, put, get}
use cube.PointerQueue.{PointerQueue, pointer_queue_get}
use cube.PointerQueue.Contents.{IsValid, contents_of, contents, HeadIn, ring}

-- A block that is not empty has a first element.
slice-cons :
    (xs : List ℕ) (i j m n : ℕ)
    → m ≡ suc n
    → i + 1 ≡ j
    → slice xs i m ≡ get_or xs i 0 ∷ slice xs j n
unfolding slice
slice-cons xs i j m n e e' = rw (e, e')

-- A get on `q` that gave `out`: what the bounded queue gives, and a valid queue of the same size.
abbrev pub Gets : PointerQueue → ℤ × Option ℕ × PointerQueue → Type 0
Gets q out =
    IsValid out.2
    × (out.2.size ≡ q.size)
    × ((out.0, out.1, contents out.2) ≡ Fifo.get_off q.size (contents q))

module _ (buffer : List ℕ) (size tail : ℕ) (room : length buffer ≡ size)
    (some_room : 0 < size) where
  abbrev Front : ℕ → ℕ → List ℕ → Type 0
  Front t h rest = contents_of buffer size t (some h) ≡ get_or buffer t 0 ∷ rest

  Front-last : (h : ℕ) → tail ≡ h → Front tail h []
  Front-last h e =
      let l : leb tail h ≡ true = ground arith in
      rw l (
        slice-cons buffer tail (tail + 1) (h + 1 - tail) 0 (omega arith) refl
        ∙ unfold slice in refl)

  Front-round :
      (h : ℕ)
      → tail ≢ h
      → h < size
      → tail + 1 ≡ size
      → Front tail h (contents_of buffer size 0 (some h))
  Front-round h ne lt e =
      let l : leb tail h ≡ false = ground arith in
      let l' : leb 0 h ≡ true = ground arith in
      rw (l, l')
        (ap (λ z. z ++ slice buffer 0 (h + 1))
            (slice-cons buffer tail (tail + 1) (size - tail) 0 (omega arith) refl)
          ∙ unfold slice in ap (◌∷◌ (get_or buffer tail 0)) (slice_index buffer refl (omega arith)))

  Front-on :
      (h : ℕ)
      → tail ≢ h
      → h < size
      → tail + 1 < size
      → Front tail h (contents_of buffer size (tail + 1) (some h))
  Front-on h ne lt lt' = elim (Bool-cases (leb tail h)) [
    | inl l ↦
        let l' : leb (tail + 1) h ≡ true = ground arith in
        rw (l, l')
          (slice-cons buffer tail (tail + 1) (h + 1 - tail) (h + 1 - (tail + 1)) (ground arith)
            refl)
    | inr l ↦
        let l' : leb (tail + 1) h ≡ false = ground arith in
        rw (l, l')
          (ap (λ z. z ++ slice buffer 0 (h + 1))
            (slice-cons buffer tail (tail + 1) (size - tail) (size - (tail + 1)) (omega arith)
              refl))
  ]

  get_at :
      (head : Option ℕ)
      → HeadIn size tail head
      → Gets (ring buffer size tail head) (pointer_queue_get (ring buffer size tail head))
  unfolding pointer_queue_get Fifo.get_off
  get_at none e = (record { room = room; some_room = some_room; sites = e }, refl, refl)
  get_at (some h) (hh, ht) = elim (Bool-cases (tail == h)) [
    | inl last ↦
        let f : Front tail h [] = Front-last h (ground arith) in
        rw (last, f) (record { room = room; some_room = some_room; sites = refl }, refl, refl)
    | inr more ↦ elim (Bool-cases (tail + 1 == size)) [
      | inl round ↦
          let f = Front-round h (ground arith) hh (ground arith) in
          rw (more, round)
            (record { room = room; some_room = some_room; sites = (hh, some_room) }, refl, rw f)
      | inr on ↦
          let f = Front-on h (ground arith) hh (ground arith) in
          rw (more, on)
            (record { room = room; some_room = some_room; sites = (hh, ground arith) }, refl, rw f)
    ]
  ]

-- `pointer_queue_get` returns the status and the pointer of the bounded queue and leaves the rest;
-- it keeps the invariant.
pub pointer_queue_get_refines : (q : PointerQueue) → IsValid q → Gets q (pointer_queue_get q)
pointer_queue_get_refines q v = get_at q.buffer q.size q.tail v.room v.some_room q.head v.sites
