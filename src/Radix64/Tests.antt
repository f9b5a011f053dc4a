-- ===== src/Radix64/Tests.antt =====
-- The word "cube", and the theorems at it.
use cube.Prelude.{ℕ, ◌≡◌, refl, List, pos, arith, codes}
use cube.Radix64.{encode, decode, radix64_to_bin, to_char, bin_from_radix64_char, decoded_length}
use cube.Radix64.RoundTrip.{radix64_to_bin-encode}

abbrev word : List ℕ
word = codes "cube"

encode-word : encode word ≡ codes "Y3ViZQ"
unfolding encode to_char
encode-word = refl

decode-word : radix64_to_bin (codes "Y3ViZQ") ≡ (pos 4, word)
unfolding radix64_to_bin decode bin_from_radix64_char decoded_length
decode-word = refl

radix64_to_bin-encode_example : radix64_to_bin (encode word) ≡ (pos 4, word)
radix64_to_bin-encode_example = radix64_to_bin-encode word (omega arith)
