-- ===== src/PointerQueue/Contents.antt =====
-- The pointers in a pointer queue, and its invariant.
use cube.Prelude.{
  ℕ, ◌+◌, ◌-◌, ◌<◌, ◌≡◌, Option, none, some, List, [], ◌++◌, leb, if◌then◌else◌, length, slice,
}
use cube.PointerQueue.{PointerQueue}

abbrev pub HeadIn : ℕ → ℕ → Option ℕ → Type 0
HeadIn size tail none = tail ≡ 0
HeadIn size tail (some h) = (h < size) × (tail < size)

pub record IsValid (q : PointerQueue) : Type 0 where
  pub room : length q.buffer ≡ q.size
  pub some_room : 0 < q.size
  pub sites : HeadIn q.size q.tail q.head

-- The pointers in the queue, oldest first.
abbrev pub contents_of : List ℕ → ℕ → ℕ → Option ℕ → List ℕ
contents_of buffer size tail none = []
contents_of buffer size tail (some h) =
    if leb tail h
    then slice buffer tail (h + 1 - tail)
    else slice buffer tail (size - tail) ++ slice buffer 0 (h + 1)

abbrev pub contents : PointerQueue → List ℕ
contents q = contents_of q.buffer q.size q.tail q.head

abbrev pub ring : List ℕ → ℕ → ℕ → Option ℕ → PointerQueue
ring buffer size tail head = record { buffer = buffer; size = size; head = head; tail = tail }
