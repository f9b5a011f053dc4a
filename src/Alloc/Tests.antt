-- ===== src/Alloc/Tests.antt =====
-- Blocks of twelve bytes, and the theorem at them.
use cube.Prelude.{◌≡◌, refl, [], none, some, einval, arith}
use cube.Alloc.{
  Block, Heap, alloc_temp, alloc_cache, alloc_dynamic, talloc, calloc, dalloc, free, free_by,
}
use cube.Alloc.Tags.{Tagged, Frees, free-alloc}

abbrev empty : Heap
empty p = none

abbrev raw : Block
raw = record { start = 0; desc = 7; base = 0; bytes = [] }

abbrev static : Block
static = record { start = 0; desc = 536870919; base = 0; bytes = [] }

abbrev held : Heap
held p = some static

free-static : free held 5 ≡ some (einval, held)
unfolding free free_by
free-static = refl

free-alloc_example :
    let (t, ht) = talloc empty 12 (some (64, raw)) in
    let (c, hc) = calloc empty 12 (some (64, raw)) in
    let (d, hd) = dalloc empty 12 3 (some (64, raw)) in
    ((t ≡ some 68) × Tagged alloc_temp 12 empty 68 ht × Frees empty 68 ht)
    × ((c ≡ some 68) × Tagged alloc_cache 12 empty 68 hc × Frees empty 68 hc)
    × ((d ≡ some 76) × Tagged alloc_dynamic 12 empty 76 hd × Frees empty 76 hd)
free-alloc_example = free-alloc empty 12 3 64 raw (omega arith)
