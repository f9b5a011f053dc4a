-- ===== src/Number/Tests.antt =====
-- Small numbers, and the theorems at them.
use cube.Prelude.{◌≡◌, refl, [], ◌∷◌, ◌++◌, pos, negsuc, inr, arith, codes}
use cube.Strings.{strnlen}
use cube.Number.{itoa, atoi, digits_up, turned}
use cube.Number.Digits.{IsDecimal, turned-IsDecimal}
use cube.Number.RoundTrip.{atoi-itoa}

itoa-negative : itoa (negsuc 216341) ≡ codes "-216342"
unfolding itoa
itoa-negative = refl

atoi-hex : atoi (codes "0x1F") 0 ≡ pos 31
unfolding atoi strnlen
atoi-hex = refl

atoi-itoa_example : atoi (itoa (pos 2147483647) ++ 0 ∷ []) 12 ≡ pos 2147483647
atoi-itoa_example = atoi-itoa 2147483647 12 (omega arith) (inr (omega arith))

abbrev forty_two : IsDecimal 10 42 (turned (digits_up 10 42))
forty_two = turned-IsDecimal 10 42 (omega arith) (omega arith)
