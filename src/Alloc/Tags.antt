-- ===== src/Alloc/Tags.antt =====
-- What the tags of allocated blocks do to `Free`.
use cube.Prelude.{
  ℕ, ◌+◌, ◌-◌, ◌*◌, ◌/◌, ◌%◌, ◌^◌, ◌<◌, ◌≡◌, ◌≢◌, refl, ap, ◌∙◌, true, false, bit_or, Option, none,
  some, pos, ◌==◌, arith,
}
use cube.Alloc.{
  Block, Heap, store, pointer_type, pointer_size, tag, alloc_temp, alloc_cache, alloc_dynamic,
  talloc, calloc, dalloc, free, free_by, free_at, tfree, cfree, dfree,
}

-- A size below 2 ^ 28 stays readable beside the type.
tag-small :
    (type size : ℕ)
    → size < 2 ^ 28
    → bit_or 0 type ≡ type
    → tag type (size % 2 ^ 32) ≡ size + type * 2 ^ 28
tag-small type size h e =
    let low : size % 2 ^ 32 % 2 ^ 28 ≡ size = omega arith in
    let high : size % 2 ^ 32 / 2 ^ 28 % 16 ≡ 0 = omega arith in rw (low, high, e) refl

-- A block with this descriptor is at `p`, and all others are as in `h`.
pub record Tagged (type size : ℕ) (h : Heap) (p : ℕ) (h' : Heap) : Type 0 where
  pub block : Block
  pub here : h' p ≡ some block
  pub typed : pointer_type block.desc ≡ type
  pub sized : pointer_size block.desc ≡ size
  pub others : (q : ℕ) → q ≢ p → h' q ≡ h q

-- `Free` of `p` succeeds, and then nothing is at `p` and all other blocks are as in `h`.
pub record Frees (h : Heap) (p : ℕ) (h' : Heap) : Type 0 where
  pub after : Heap
  pub result : free h' p ≡ some (pos 0, after)
  pub gone : after p ≡ none
  pub others : (q : ℕ) → q ≢ p → after q ≡ h q

store_self : (h : Heap) (p : ℕ) (b : Option Block) → store h p b p ≡ b
store_self h p b = let e : (p == p) ≡ true = ground arith in rw e refl

store_other : (h : Heap) (p : ℕ) (b : Option Block) (q : ℕ) → q ≢ p → store h p b q ≡ h q
store_other h p b q ne = let e : (q == p) ≡ false = ground arith in rw e refl

module _ (h : Heap) (p : ℕ) (b : Block) (type size : ℕ) (e : b.desc ≡ size + type * 2 ^ 28)
    (small : size < 2 ^ 28) where
  store-Tagged : Tagged type size h p (store h p (some b))
  store-Tagged = record {
    block = b;
    here = store_self h p (some b);
    typed = omega (arith, e);
    sized = omega (arith, e);
    others = store_other h p (some b);
  }

  store-Frees :
      (free_by type (store h p (some b)) p ≡ some (pos 0, store (store h p (some b)) p none))
      → Frees h p (store h p (some b))
  unfolding free
  store-Frees released = record {
    after = store (store h p (some b)) p none;
    result =
        rw (store_self h p (some b), free)
          (ap (λ t. free_by t (store h p (some b)) p)
              (let z : pointer_type b.desc ≡ type = omega (arith, e) in z)
            ∙ released);
    gone = store_self (store h p (some b)) p none;
    others = λ q ne. store_other (store h p (some b)) p none q ne ∙ store_other h p (some b) q ne;
  }

-- `free` of the address that `malloc` gave.
free_at-start :
    (h : Heap) (p a : ℕ) (b : Block)
    → b.start ≡ a
    → free_at (store h p (some b)) p a ≡ some (pos 0, store (store h p (some b)) p none)
unfolding free_at
free_at-start h p a b e =
    let here : (b.start == a) ≡ true = ground (arith, e) in
    rw (store_self h p (some b), free_at) (rw here refl)

-- A block of less than 2 ^ 28 bytes for which `malloc` gives the address `a` has its address 4 behind
-- it from `Talloc` or `Calloc` and 12 behind it from `Dalloc`. It carries its type and its size, `Free`
-- hands `a` to `free` and returns 0, after which nothing is left of the block, and no other block
-- changes.
pub free-alloc :
    (h : Heap) (size base a : ℕ) (raw : Block)
    → size < 2 ^ 28
    → let (t, ht) = talloc h size (some (a, raw)) in
      let (c, hc) = calloc h size (some (a, raw)) in
      let (d, hd) = dalloc h size base (some (a, raw)) in
      ((t ≡ some (a + 4)) × Tagged alloc_temp size h (a + 4) ht × Frees h (a + 4) ht)
      × ((c ≡ some (a + 4)) × Tagged alloc_cache size h (a + 4) hc × Frees h (a + 4) hc)
      × ((d ≡ some (a + 12)) × Tagged alloc_dynamic size h (a + 12) hd × Frees h (a + 12) hd)
unfolding talloc calloc dalloc free_by tfree cfree dfree
free-alloc h size base a raw small =
    let t = tag-small alloc_temp size small refl in
    let c = tag-small alloc_cache size small refl in
    let d = tag-small alloc_dynamic size small refl in
    let twelve : a + 4 + 8 ≡ a + 12 = omega arith in
    rw twelve (
      (
        refl,
        store-Tagged h (a + 4) _ alloc_temp size t small,
        store-Frees h (a + 4) _ alloc_temp size t small
            (free_at-start h (a + 4) (a + 4 - 4) _ (omega arith)),
      ),
      (
        refl,
        store-Tagged h (a + 4) _ alloc_cache size c small,
        store-Frees h (a + 4) _ alloc_cache size c small
            (free_at-start h (a + 4) (a + 4 - 4) _ (omega arith)),
      ),
      (
        refl,
        store-Tagged h (a + 12) _ alloc_dynamic size d small,
        store-Frees h (a + 12) _ alloc_dynamic size d small
            (free_at-start h (a + 12) (a + 12 - 4 - 8) _ (omega arith)),
      ),
    )
