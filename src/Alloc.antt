-- ===== src/Alloc.antt =====
-- The allocation of tagged memory: cubelib/alloc/alloc.c, with the macros of alloc_struct.h.
pub mod Tags
mod Tests
use cube.Prelude.{
  ℕ, ◌+◌, ◌-◌, ◌*◌, ◌/◌, ◌%◌, ◌^◌, bit_or, Option, none, some, List, ℤ, pos, einval, ◌==◌,
  if◌then◌else◌, memset,
}

-- `enum alloc_type`.
abbrev pub alloc_temp : ℕ
alloc_temp = 1

abbrev pub alloc_static : ℕ
alloc_static = 2

abbrev pub alloc_cache : ℕ
alloc_cache = 3

abbrev pub alloc_dynamic : ℕ
alloc_dynamic = 4

-- The bytes of the descriptor in front of a block, and those of the pointer in front of it where
-- there is one.
abbrev pub desc_bytes : ℕ
desc_bytes = 4

abbrev pub base_bytes : ℕ
base_bytes = 8

-- A piece of memory, by the address that the client has: the address that `malloc` gave for it, the
-- `UINT32` in front of it, the pointer in front of that where there is one, and the bytes.
pub record Block : Type 0 where
  pub start : ℕ
  pub desc : ℕ
  pub base : ℕ
  pub bytes : List ℕ

-- What is allocated at each address.
abbrev pub Heap : Type 0
Heap = ℕ → Option Block

abbrev pub store : Heap → ℕ → Option Block → Heap
store h p b q = if q == p then b else h q

-- `Pointer_Type` and `Pointer_Size` of a descriptor of 32 bits: the upper four and the lower 28.
abbrev pub pointer_type : ℕ → ℕ
pointer_type desc = desc / 2 ^ 28

abbrev pub pointer_size : ℕ → ℕ
pointer_size desc = desc % 2 ^ 28

-- `desc|=type<<Pointer_Size_bits`: the lower 28 bits stay.
abbrev pub tag : ℕ → ℕ → ℕ
tag type desc = desc % 2 ^ 28 + bit_or (desc / 2 ^ 28 % 16) type * 2 ^ 28

-- The allocations take the address that `malloc` gave, with what is in the memory there, or `none`.
-- `Talloc`.
pub talloc : Heap → ℕ → Option (ℕ × Block) → Option ℕ × Heap
talloc h size none = (none, h)
talloc h size (some (a, raw)) = (
  some (a + desc_bytes),
  store h (a + desc_bytes) (some (record raw { start = a; desc = tag alloc_temp (size % 2 ^ 32) })),
)

-- `Calloc`.
pub calloc : Heap → ℕ → Option (ℕ × Block) → Option ℕ × Heap
calloc h size none = (none, h)
calloc h size (some (a, raw)) = (
  some (a + desc_bytes),
  store h (a + desc_bytes)
      (some (record raw { start = a; desc = tag alloc_cache (size % 2 ^ 32) })),
)

-- `Dalloc`.
pub dalloc : Heap → ℕ → ℕ → Option (ℕ × Block) → Option ℕ × Heap
dalloc h size base none = (none, h)
dalloc h size base (some (a, raw)) = (
  some (a + desc_bytes + base_bytes),
  store h (a + desc_bytes + base_bytes)
      (some (record raw { start = a; desc = tag alloc_dynamic (size % 2 ^ 32); base = base })),
)

-- `Salloc`. The statement under `if(pointer==NULL)` is the store of the size, so without memory it
-- goes through NULL (`none`), and with memory the size is not stored.
pub salloc : Heap → ℕ → Option (ℕ × Block) → Option (Option ℕ × Heap)
salloc h size none = none
salloc h size (some (a, raw)) = some (
  some (a + desc_bytes),
  store h (a + desc_bytes) (some (record raw { start = a; desc = tag alloc_static raw.desc })),
)

-- The bytes of a new block are cleared: what `Talloc0`, `Calloc0` and `Dalloc0` add.
pub cleared : ℕ → Option ℕ × Heap → Option ℕ × Heap
cleared size (none, h) = (none, h)
cleared size (some p, h) = elim (h p) [
  | none ↦ (some p, h)
  | some b ↦ (some p, store h p (some (record b { bytes = memset b.bytes 0 0 size })))
]

pub talloc0 : Heap → ℕ → Option (ℕ × Block) → Option ℕ × Heap
unfolding cleared talloc
talloc0 h size got = cleared size (talloc h size got)

pub calloc0 : Heap → ℕ → Option (ℕ × Block) → Option ℕ × Heap
unfolding cleared calloc
calloc0 h size got = cleared size (calloc h size got)

pub dalloc0 : Heap → ℕ → ℕ → Option (ℕ × Block) → Option ℕ × Heap
unfolding cleared dalloc
dalloc0 h size base got = cleared size (dalloc h size base got)

-- `free` of the address `a` for the block at `p`: the block is gone. `none` is an address that
-- `malloc` did not give for it, which is undefined.
pub free_at : Heap → ℕ → ℕ → Option (ℤ × Heap)
free_at h p a = elim (h p) [
  | none ↦ none
  | some b ↦ if b.start == a then some (pos 0, store h p none) else none
]

pub tfree : Heap → ℕ → Option (ℤ × Heap)
unfolding free_at
tfree h p = free_at h p (p - desc_bytes)

pub cfree : Heap → ℕ → Option (ℤ × Heap)
unfolding free_at
cfree h p = free_at h p (p - desc_bytes)

pub sfree : Heap → ℕ → Option (ℤ × Heap)
unfolding free_at
sfree h p = free_at h p (p - desc_bytes)

pub dfree : Heap → ℕ → Option (ℤ × Heap)
unfolding free_at
dfree h p = free_at h p (p - desc_bytes - base_bytes)

-- The `switch` of `Free` on the type of a block.
free_by : ℕ → Heap → ℕ → Option (ℤ × Heap)
unfolding tfree dfree cfree
free_by type h p =
    if type == alloc_temp
    then tfree h p
    else if type == alloc_static
    then some (einval, h)
    else if type == alloc_dynamic
    then dfree h p
    else if type == alloc_cache
    then cfree h p
    else some (einval, h)

-- `Free`; `none` is a pointer to no block.
pub free : Heap → ℕ → Option (ℤ × Heap)
unfolding free_by
free h p = elim (h p) [ none ↦ none | some b ↦ free_by (pointer_type b.desc) h p ]

-- The status of `Free` is dropped by `Free0`.
done : Option (ℤ × Heap) → Option (ℤ × Heap)
done none = none
done (some (status, h)) = some (pos 0, h)

-- `Free0`: the bytes are cleared first.
pub free0 : Heap → ℕ → Option (ℤ × Heap)
unfolding free_by done
free0 h p = elim (h p) [
  | none ↦ none
  | some b ↦
      let h' = store h p (some (record b { bytes = memset b.bytes 0 0 (pointer_size b.desc) })) in
      done (free_by (pointer_type b.desc) h' p)
]

-- The `switch` of `Palloc` on the type of the block at `base`.
pub palloc : Heap → ℕ → ℕ → Option (ℕ × Block) → Option (Option ℕ × Heap)
unfolding talloc salloc dalloc
palloc h size base got = elim (h base) [
  | none ↦ none
  | some b ↦
      if pointer_type b.desc == alloc_temp
      then some (talloc h size got)
      else if pointer_type b.desc == alloc_static
      then salloc h size got
      else if pointer_type b.desc == alloc_dynamic
      then some (dalloc h size base got)
      else if pointer_type b.desc == alloc_cache
      then some (dalloc h size base got)
      else some (none, h)
]
