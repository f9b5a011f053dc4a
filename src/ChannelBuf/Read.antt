-- ===== src/ChannelBuf/Read.antt =====
-- `channel_buf_read` takes the oldest bytes off the buffer.
use cube.Prelude.{
  ℕ, ◌+◌, ◌-◌, ◌≤◌, ◌<◌, ◌≡◌, refl, ap, List, ◌++◌, inl, inr, Bool-cases, true, false, arith, min,
  length, slice, memcpy, take, drop, leb, ltb, ◌==◌, tests, take-slice, drop-slice, slice_index,
  slice-memcpy, slice-memcpy_twice, take-slices_left, take-slices_right, drop-slices_left,
  drop-slices_right,
}
use cube.ChannelBuf.{ChannelBuf, u16, read}
use cube.ChannelBuf.Contents.{IsValid, used, contents}

-- What a read of `size` bytes gives: the count, the caller's bytes, what stays behind.
pub record Reads (b : ChannelBuf) (size : ℕ) (out : ℕ × List ℕ × ChannelBuf) : Type 0 where
  pub count : out.0 ≡ min size (used b)
  pub bytes : slice out.1 0 out.0 ≡ take out.0 (contents b)
  pub rest : contents out.2 ≡ drop out.0 (contents b)
  pub valid : IsValid out.2

module _ (b : ChannelBuf) (into : List ℕ) (k tail : ℕ) where
  open b use {bufsize as n, offset as o, last_read_tail as r, last_write_tail as w, block}

  -- The array `copied` starts with the oldest `k` bytes, and with the read tail at `tail` the
  -- others are left.
  abbrev Takes : List ℕ → Type 0
  Takes copied =
      (slice copied 0 k ≡ take k (contents b))
      × (contents (record b { last_read_tail = tail }) ≡ drop k (contents b))

  module _ (fits : k ≤ length into) where
    -- Both tails in the same circle.
    Takes-ahead : r ≤ w → k ≤ w - r → tail ≡ r + k → Takes (memcpy into 0 block (o + r) k)
    Takes-ahead order h e =
        let l : leb r w ≡ true = ground arith in
        let l' : leb tail w ≡ true = ground arith in
        (
          rw (slice-memcpy into 0 block (o + r) k (omega arith), l)
              (rw (take-slice block (o + r) (w - r) k h)),
          rw (l', l, drop-slice block (o + r) (w - r) k h, e)
              (slice_index block (omega arith) (omega arith)),
        )

    -- The read stops before the upper end of the ring.
    Takes-front : w < r → k < n - r → tail ≡ r + k → Takes (memcpy into 0 block (o + r) k)
    Takes-front order h e =
        let l : leb r w ≡ false = ground arith in
        let l' : leb tail w ≡ false = ground arith in
        (
          rw (slice-memcpy into 0 block (o + r) k (omega arith), l)
              (rw (take-slices_left block (o + r) (n - r) o w k (omega arith))),
          rw (l', l, drop-slices_left block (o + r) (n - r) o w k (omega arith), e)
              (ap (λ l. l ++ slice block o w) (slice_index block (omega arith) (omega arith))),
        )

    -- The read goes round the upper end.
    Takes-round :
        w < r
        → n - r ≤ k
        → k - (n - r) ≤ w
        → tail ≡ k - (n - r)
        → Takes (memcpy (memcpy into 0 block (o + r) (n - r)) (n - r) block o (k - (n - r)))
    Takes-round order h h' e =
        let l : leb r w ≡ false = ground arith in
        let l' : leb tail w ≡ true = ground arith in
        (
          rw (slice-memcpy_twice into block (o + r) o (n - r) (k - (n - r)) k (omega arith) fits, l)
              (rw (take-slices_right block (o + r) (n - r) o w k h h')),
          rw (l', l, drop-slices_right block (o + r) (n - r) o w k h h', e),
        )

module _ (b : ChannelBuf) (into : List ℕ) (size : ℕ) where
  open b use {bufsize as n, offset as o, last_read_tail as r, last_write_tail as w, block}

  reads :
      (k tail : ℕ) {copied : List ℕ}
      → k ≡ min size (used b)
      → tail < n
      → IsValid b
      → Takes b into k tail copied
      → Reads b size (k, copied, record b { last_read_tail = tail })
  reads k tail e h v t = record { count = e; bytes = t.0; rest = t.1; valid = omega arith }

-- A read returns as many bytes as are there or were asked for, the oldest ones in order, and
-- leaves the others; it keeps the invariant.
pub read-Reads :
    (b : ChannelBuf) (into : List ℕ) (size : ℕ)
    → IsValid b
    → min size (used b) ≤ length into
    → Reads b size (read b into size)
unfolding read
read-Reads b into size v h = elim (Bool-cases (r == w)) [
  | inl same ↦
      rw same
        (record { count = ground arith; bytes = unfold slice in refl; rest = refl; valid = v })
  | inr apart ↦ elim (Bool-cases (ltb r w)) [
    | inl ahead ↦ elim (Bool-cases (ltb size (w - r))) [
      | inl part ↦
          rw (apart, ahead, part)
            (reads b into size size (u16 (r + size)) (ground arith) (omega tests) v (
              Takes-ahead b into size (u16 (r + size)) (ground arith) (omega tests) (omega tests)
                (omega tests)))
      | inr whole ↦
          rw (apart, ahead, whole)
            (reads b into size (w - r) (u16 w) (ground arith) (omega tests) v (
              Takes-ahead b into (w - r) (u16 w) (ground arith) (omega tests) (omega tests)
                (omega tests)))
    ]
    | inr wrapped ↦ elim (Bool-cases (ltb size (n - r))) [
      | inl front ↦
          rw (apart, wrapped, front)
            (reads b into size size (u16 (r + size)) (ground arith) (omega tests) v (
              Takes-front b into size (u16 (r + size)) (ground arith) (ground arith) (omega tests)
                (omega tests)))
      | inr round ↦ elim (Bool-cases (ltb size (n - r + w))) [
        | inl part ↦
            rw (apart, wrapped, round, part)
              (reads b into size size (u16 (size - (n - r))) (ground arith) (omega tests) v (
                Takes-round b into size (u16 (size - (n - r))) (ground arith) (ground arith)
                  (omega tests) (omega tests) (omega tests)))
        | inr whole ↦
            rw (apart, wrapped, round, whole)
              (reads b into size (n - r + w) (u16 w) (ground arith) (omega tests) v (
                Takes-round b into (n - r + w) (u16 w) (ground arith) (ground arith) (omega tests)
                  (omega tests) (omega tests)))
      ]
    ]
  ]
]
  where
    open b use {bufsize as n, offset as o, last_read_tail as r, last_write_tail as w, block}
