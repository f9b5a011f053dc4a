-- ===== src/Radix64/RoundTrip.antt =====
-- Decoding undoes encoding, and the two length functions agree with the code.
use cube.Prelude.{
  ℕ, ◌+◌, ◌*◌, ◌/◌, ◌%◌, ◌<◌, ◌≡◌, refl, List, [], ◌∷◌, ◌++◌, true, false, arith, ℤ, pos, ◌==◌,
  length, get_or, All, IsByte, passes_under, passes_under-lt, ==→eq,
}
use cube.Radix64.{
  to_char, encode, bin_to_radix64, bin_from_radix64_char, decode, decoded_length, radix64_to_bin,
  bin_to_radix64_len, radix_to_bin_len,
}

digit_table : passes_under (λ v. bin_from_radix64_char (to_char v) == v) 64 ≡ true
unfolding passes_under bin_from_radix64_char to_char
digit_table = refl

-- The character of a digit is read back as the digit.
pub from_char-to_char : (v : ℕ) → v < 64 → bin_from_radix64_char (to_char v) ≡ v
from_char-to_char v h = ==→eq _ v (passes_under-lt _ 64 digit_table v h)

decode-encode : (done : ℤ) (bin : List ℕ) → All IsByte bin → decode done (encode bin) ≡ (done, bin)
unfolding encode decode
decode-encode done [] h = refl
decode-encode done (a ∷ []) h =
    rw (from_char-to_char (a / 4) (omega arith), from_char-to_char (a % 4 * 16) (omega arith))
      (ground arith)
decode-encode done (a ∷ b ∷ []) h =
    rw
      (
        from_char-to_char (a / 4) (omega arith),
        from_char-to_char (a % 4 * 16 + b / 16) (omega arith),
        from_char-to_char (b % 16 * 4) (omega arith),
      )
      (ground arith)
decode-encode done (a ∷ b ∷ c ∷ bin) h =
    rw
      (
        from_char-to_char (a / 4) (omega arith),
        from_char-to_char (a % 4 * 16 + b / 16) (omega arith),
        from_char-to_char (b % 16 * 4 + c / 64) (omega arith),
        from_char-to_char (c % 64) (omega arith),
        decode-encode done bin h.1.1.1,
      )
      (ground arith)

length-encode : (bin : List ℕ) → length (encode bin) ≡ bin_to_radix64_len (length bin)
unfolding encode bin_to_radix64_len
length-encode [] = refl
length-encode (a ∷ []) = refl
length-encode (a ∷ b ∷ []) = refl
length-encode (a ∷ b ∷ c ∷ bin) = omega (arith, length-encode bin)

decoded_length_lem : (n : ℕ) → decoded_length (bin_to_radix64_len n) ≡ n
unfolding decoded_length bin_to_radix64_len
decoded_length_lem n = ground arith

whole_groups : (n : ℕ) → (bin_to_radix64_len n % 4 == 1) ≡ false
unfolding bin_to_radix64_len
whole_groups n = ground arith

-- What `bin_to_radix64` makes of any bytes, `radix64_to_bin` turns back into these bytes, and it
-- returns their number.
pub radix64_to_bin-encode :
    (bin : List ℕ) → All IsByte bin → radix64_to_bin (encode bin) ≡ (pos (length bin), bin)
unfolding radix64_to_bin
radix64_to_bin-encode bin h = rw (
  length-encode bin,
  whole_groups (length bin),
  decoded_length_lem (length bin),
  decode-encode (pos (length bin)) bin h,
)

-- The length functions agree with the code: `bin_to_radix64` returns `bin_to_radix64_len` of the
-- number of bytes and ends its text with a terminator behind so many characters, and
-- `radix_to_bin_len` of that length is the number of bytes again.
pub radix64_lengths :
    (bin : List ℕ)
    → ((bin_to_radix64 bin).0 ≡ bin_to_radix64_len (length bin))
      × (get_or (bin_to_radix64 bin).1 (bin_to_radix64_len (length bin)) 1 ≡ 0)
      × (radix_to_bin_len (bin_to_radix64_len (length bin)) ≡ pos (length bin))
unfolding bin_to_radix64
radix64_lengths bin = (
  length-encode bin,
  rw (← length-encode bin) (ends (encode bin)),
  unfold radix_to_bin_len bin_to_radix64_len in ground arith,
)
  where
    ends : (l : List ℕ) → get_or (l ++ 0 ∷ []) (length l) 1 ≡ 0
    ends [] = refl
    ends (x ∷ l) = ends l
