-- ===== src/ChannelBuf/Write.antt =====
-- `channel_buf_write` puts bytes behind those that wait in the buffer.
use cube.Prelude.{
  ℕ, ◌+◌, ◌-◌, ◌≤◌, ◌<◌, ◌≡◌, refl, sym, ap, ap₂, ◌∙◌, List, [], ◌++◌, ◌⊎◌, inl, inr, ◌&&◌,
  Bool-cases, true, false, arith, min, length, slice, memcpy, leb, ltb, ◌==◌, tests, append-nil,
  append_assoc, slice_index, slice-add, length-memcpy, slice-memcpy, slice-memcpy_outside,
  slice-memcpy_behind,
}
use cube.ChannelBuf.{ChannelBuf, u16, write}
use cube.ChannelBuf.Contents.{IsValid, used, contents}

-- How many bytes a write can put in: one byte of the ring stays free.
abbrev pub space : ChannelBuf → ℕ
space b = b.bufsize - 1 - used b

-- What a write of `size` bytes of `from` gives: the count and what waits afterwards.
pub record Writes (b : ChannelBuf) (from : List ℕ) (size : ℕ) (out : ℕ × ChannelBuf) : Type 0 where
  pub count : out.0 ≡ min size (space b)
  pub bytes : contents out.1 ≡ contents b ++ slice from 0 out.0
  pub valid : IsValid out.1

module _ (b : ChannelBuf) (from : List ℕ) (k tail : ℕ) (v : IsValid b) where
  open b use {bufsize as n, offset as o, last_read_tail as r, last_write_tail as w, block}

  -- With the bytes `block'` and the write tail at `tail`, `k` bytes have been added.
  abbrev Puts : List ℕ → Type 0
  Puts block' =
      contents (record b { last_write_tail = tail; block = block' }) ≡ contents b ++ slice from 0 k

  -- Into the gap below the read tail.
  Puts-gap : w < r → k ≤ r - 1 - w → tail ≡ w + k → Puts (memcpy block (o + w) from 0 k)
  Puts-gap order h e =
      let l : leb r w ≡ false = ground arith in
      let l' : leb r tail ≡ false = ground arith in
      rw (l', l)
        (ap₂ ◌++◌ (slice-memcpy_outside block (o + w) from 0 k (o + r) (n - r) (inr (omega arith)))
            (slice-memcpy_behind block from o (o + w) 0 w k tail refl (sym e) (omega arith))
          ∙ sym (append_assoc (slice block (o + r) (n - r)) (slice block o w) (slice from 0 k)))

  -- Below the upper end of the ring.
  Puts-front : r ≤ w → k < n - w → tail ≡ w + k → Puts (memcpy block (o + w) from 0 k)
  Puts-front order h e =
      let l : leb r w ≡ true = ground arith in
      let l' : leb r tail ≡ true = ground arith in
      rw (l', l)
        (slice-memcpy_behind block from (o + r) (o + w) 0 (w - r) k (tail - r) (omega arith)
          (omega arith) (omega arith))

  -- Round the upper end.
  Puts-round :
      r ≤ w
      → n - w ≤ k
      → k - (n - w) < r
      → tail ≡ k - (n - w)
      → Puts (memcpy (memcpy block (o + w) from 0 (n - w)) o from (n - w) (k - (n - w)))
  Puts-round order h h' e =
      let front : List ℕ = memcpy block (o + w) from 0 (n - w) in
      let size : length front ≡ length block = length-memcpy block (o + w) from 0 (n - w) in
      let l : leb r w ≡ true = ground arith in
      let l' : leb r tail ≡ false = ground arith in
      rw (l', l, e)
        (ap₂ ◌++◌
            (slice-memcpy_outside front o from (n - w) (k - (n - w)) (o + r) (n - r)
                (inr (omega arith))
              ∙ slice-memcpy_behind block from (o + r) (o + w) 0 (w - r) (n - w) (n - r)
                  (omega arith) (omega arith) (omega arith))
            (slice-memcpy front o from (n - w) (k - (n - w)) (omega arith))
          ∙ append_assoc (slice block (o + r) (w - r)) (slice from 0 (n - w))
              (slice from (n - w) (k - (n - w)))
          ∙ ap (λ z. slice block (o + r) (w - r) ++ z)
              (ap (λ z. slice from 0 (n - w) ++ z)
                  (slice_index from (let z : n - w ≡ 0 + (n - w) = omega arith in z) refl)
                ∙ sym (slice-add from 0 (n - w) (k - (n - w)))
                ∙ ap (slice from 0) (let z : n - w + (k - (n - w)) ≡ k = omega arith in z)))

module _ (b : ChannelBuf) (from : List ℕ) (size : ℕ) where
  open b use {bufsize as n, offset as o, last_read_tail as r, last_write_tail as w, block}

  writes :
      (k tail : ℕ) {block' : List ℕ}
      → length block' ≡ length block
      → k ≡ min size (space b)
      → tail < n
      → (v : IsValid b) → Puts b from k tail v block'
      → Writes b from size (k, record b { last_write_tail = tail; block = block' })
  writes k tail e h l v p = record { count = h; bytes = p; valid = omega arith }

-- What makes a write safe: the read tail is not at 0, or the write stays below the upper end.
abbrev pub Safe : ChannelBuf → ℕ → Type 0
Safe b size = (0 < b.last_read_tail) ⊎ (size < b.bufsize - b.last_write_tail)

-- A safe write takes as many bytes as there is space for, returns their number, adds exactly those
-- bytes in order, and keeps the invariant.
pub write-Writes :
    (b : ChannelBuf) (from : List ℕ) (size : ℕ)
    → IsValid b
    → Safe b size
    → Writes b from size (write b from size)
unfolding write
write-Writes b from size v safe = elim (Bool-cases (ltb 0 r && (r - 1 == w))) [
  | inl full ↦ rw full (record {
    count = ground arith;
    bytes = unfold slice in sym (append-nil (contents b));
    valid = v;
  })
  | inr free ↦ elim (Bool-cases (ltb w r)) [
    | inl gap ↦ elim (Bool-cases (ltb size (r - 1 - w))) [
      | inl part ↦
          rw (free, gap, part)
            (writes b from size size (u16 (w + size)) (copied (o + w) 0 size) (ground arith)
              (omega tests) v
              (Puts-gap b from size (u16 (w + size)) v (omega tests) (omega tests) (omega tests)))
      | inr whole ↦
          rw (free, gap, whole)
            (writes b from size (r - 1 - w) (u16 (r - 1)) (copied (o + w) 0 (r - 1 - w))
              (ground arith) (omega tests) v
              (Puts-gap b from (r - 1 - w) (u16 (r - 1)) v (omega tests) (omega tests)
                (omega tests)))
    ]
    | inr ring ↦ elim (Bool-cases (ltb size (n - w))) [
      | inl front ↦
          rw (free, ring, front)
            (writes b from size size (u16 (w + size)) (copied (o + w) 0 size) (ground arith)
              (omega tests) v
              (Puts-front b from size (u16 (w + size)) v (omega tests) (omega tests) (omega tests)))
      | inr round ↦ elim (Bool-cases (ltb size (n - w + (r - 1)))) [
        | inl part ↦
            rw (free, ring, round, part)
              (writes b from size size (u16 (size - (n - w)))
                (copied_twice (n - w) (size - (n - w))) (ground arith) (omega tests) v
                (Puts-round b from size (u16 (size - (n - w))) v (omega tests) (omega tests)
                  (omega tests) (omega tests)))
        | inr whole ↦
            let e : n - w + (r - 1) - (n - w) ≡ r - 1 = omega arith in
            rw (free, ring, round, whole)
              (writes b from size (n - w + (r - 1)) (u16 (r - 1)) (copied_twice (n - w) (r - 1))
                (ground arith) (omega tests) v
                (rw e at (
                  Puts-round b from (n - w + (r - 1)) (u16 (r - 1)) v (omega tests) (omega tests)
                    (omega tests) (omega tests))))
      ]
    ]
  ]
]
  where
    open b use {bufsize as n, offset as o, last_read_tail as r, last_write_tail as w, block}

    copied : (i j k : ℕ) → length (memcpy block i from j k) ≡ length block
    copied i j k = length-memcpy block i from j k

    copied_twice :
        (j k : ℕ) → length (memcpy (memcpy block (o + w) from 0 j) o from j k) ≡ length block
    copied_twice j k = length-memcpy _ o from j k ∙ copied (o + w) 0 j

-- With the read tail at 0, a write that reaches the upper end reports the bytes up to there as
-- written and leaves the buffer empty: what it wrote and what waited before are lost.
write_loses :
    (b : ChannelBuf) (from : List ℕ) (size : ℕ)
    → b.last_read_tail ≡ 0
    → b.bufsize - b.last_write_tail ≤ size
    → ((write b from size).0 ≡ b.bufsize - b.last_write_tail)
      × (contents (write b from size).1 ≡ [])
unfolding write slice
write_loses b from size e h = ground arith
