-- ===== src/Bitmap/Tests.antt =====
-- A map of two bytes, and the theorems at it.
use cube.Prelude.{
  ℕ, ◌+◌, ◌*◌, ◌/◌, ◌<◌, ◌≡◌, ◌↔◌, refl, List, [], ◌∷◌, true, arith, All, IsByte, ltb,
}
use cube.Bitmap.{bitmap_set, bitmap_is_allset, full_bytes}
use cube.Bitmap.Bits.{is_set}
use cube.Bitmap.AllSet.{bitmap_is_allset_iff}

abbrev two_bytes : List ℕ
two_bytes = 0xff ∷ 0x03 ∷ []

two_bytes-IsByte : All IsByte two_bytes
two_bytes-IsByte = (omega arith, (omega arith, tt))

set-ten : bitmap_set two_bytes 10 ≡ 0xff ∷ 0x07 ∷ []
unfolding bitmap_set
set-ten = refl

allset-ten : bitmap_is_allset two_bytes 10 ≡ true
unfolding bitmap_is_allset full_bytes
allset-ten = refl

bitmap_is_allset_iff_example :
    (bitmap_is_allset two_bytes 10 ≡ true)
    ↔ ((j : ℕ) → j < (10 + 7) / 8 * 8 → is_set two_bytes j ≡ ltb j 10)
bitmap_is_allset_iff_example = bitmap_is_allset_iff two_bytes 10 two_bytes-IsByte
