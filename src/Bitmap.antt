-- ===== src/Bitmap.antt =====
-- The bitmaps of cubelib/string/memfunc.c.
pub mod Bits
pub mod AllSet
mod Tests
use cube.Prelude.{
  ℕ, zero, suc, ◌+◌, ◌-◌, ◌/◌, ◌%◌, ◌^◌, Bool, true, false, not, List, bit_and, bit_or, ◌==◌,
  if◌then◌else◌, get_or, set,
}

-- `c<<=site%8` on the `unsigned char` 1.
abbrev pub bit_of : ℕ → ℕ
bit_of site = 2 ^ (site % 8)

-- `bitmap_set`, `bitmap_clear` and `bitmap_get`, for a site that is not negative.
pub bitmap_set : List ℕ → ℕ → List ℕ
bitmap_set bitmap site = set bitmap (site / 8) (bit_or (get_or bitmap (site / 8) 0) (bit_of site))

pub bitmap_clear : List ℕ → ℕ → List ℕ
bitmap_clear bitmap site =
    set bitmap (site / 8) (bit_and (get_or bitmap (site / 8) 0) (255 - bit_of site))

pub bitmap_get : List ℕ → ℕ → ℕ
bitmap_get bitmap site = bit_and (get_or bitmap (site / 8) 0) (bit_of site)

-- The loop of `bitmap_is_allset` over the `n` full bytes from the index `i` on.
pub full_bytes : List ℕ → ℕ → ℕ → Bool
full_bytes bitmap i zero = true
full_bytes bitmap i (suc n) =
    let rest = full_bytes bitmap (i + 1) n in if get_or bitmap i 0 == 0xff then rest else false

-- `bitmap_is_allset`. The last byte is compared with `0x7f>>(7-size%8)`, so the bits
-- behind the size must be clear.
pub bitmap_is_allset : List ℕ → ℕ → Bool
unfolding full_bytes
bitmap_is_allset bitmap size =
    if full_bytes bitmap 0 (size / 8)
    then (if size % 8 == 0 then true else get_or bitmap (size / 8) 0 == 0x7f / 2 ^ (7 - size % 8))
    else false
