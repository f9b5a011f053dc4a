-- ===== src/Hex.antt =====
-- Hexadecimal text of cubelib/string/memfunc.c: `bin_2_hex`, `hex_2_bin`, and the tests on uuids.
pub mod RoundTrip
pub mod Uuid
mod Tests
use cube.Prelude.{
  drop, ℕ, zero, suc, ◌+◌, ◌-◌, ◌*◌, ◌/◌, ◌%◌, List, [], ◌∷◌, ◌&&◌, ◌||◌, Bool, true, false, Option,
  none, some, ℤ, pos, negsuc, einval, ltb, leb, ◌==◌, if◌then◌else◌, get_or, set, take, replicate,
  is_zero, digest_size,
}
use cube.Strings.{strnlen, memcmp}

-- One digit of `bin_2_hex`.
hex_digit : ℕ → ℕ
hex_digit tempdata = if ltb 9 tempdata then tempdata - 10 + b'a' else tempdata + b'0'

-- The characters that `bin_2_hex` stores, two for each byte; it returns their number.
pub bin_2_hex : List ℕ → List ℕ
unfolding hex_digit
bin_2_hex [] = []
bin_2_hex (b ∷ bin) = hex_digit (b / 16) ∷ hex_digit (b % 16) ∷ bin_2_hex bin

-- The value that `hex_2_bin` takes for a character; the letters start at 0.
hex_value : ℕ → Option ℕ
hex_value c =
    if leb b'0' c && leb c b'9'
    then some (c - b'0')
    else if leb b'a' c && leb c b'f'
    then some (c - b'a')
    else if leb b'A' c && leb c b'F'
    then some (c - b'A')
    else none

-- The body of the loop of `hex_2_bin` at the index `i`, for the value `var`.
hex_store : ℕ → ℕ → List ℕ → List ℕ
hex_store i var bin =
    if i % 2 == 0
    then set bin (i / 2) (var * 16 % 256)
    else set bin (i / 2) ((get_or bin (i / 2) 0 + var) % 256)

-- The loop of `hex_2_bin` from the index `i` on, with the status `done` at its end.
hex_loop : ℤ → List ℕ → ℕ → List ℕ → ℤ × List ℕ
hex_loop done [] i bin = (done, bin)
hex_loop done (c ∷ hex) i bin = elim (hex_value c) [
  | none ↦ (einval, bin)
  | some var ↦ hex_loop done hex (i + 1) (hex_store i var bin)
]

-- `hex_2_bin`: the status and the array `bin` afterwards.
pub hex_2_bin : List ℕ → ℕ → List ℕ → ℤ × List ℕ
hex_2_bin hex size bin =
    let len = strnlen hex size in
    if len % 2 == 0 then hex_loop (pos (len / 2)) (take len hex) 0 bin else (einval, bin)

-- `_ishexdigit`.
pub ishexdigit : ℕ → Bool
ishexdigit c =
    (leb b'0' c && leb c b'9') || ((leb b'a' c && leb c b'f') || (leb b'A' c && leb c b'F'))

-- The loop of `Isvaliduuid` over the `n` characters that are left.
all_hex : List ℕ → ℕ → ℕ → Bool
all_hex uuid i zero = true
all_hex uuid i (suc n) =
    let rest = all_hex uuid (i + 1) n in if ishexdigit (get_or uuid i 0) then rest else false

-- `Isvaliduuid`.
pub isvaliduuid : List ℕ → Bool
isvaliduuid uuid = all_hex uuid 0 (digest_size * 2)

-- `Isemptyuuid`: a comparison with a block of zeros.
pub isemptyuuid : List ℕ → Bool
isemptyuuid uuid = is_zero (memcmp (replicate digest_size 0) uuid digest_size)

-- `Isstrinuuid`: the bytes behind the text are zero, and the text has 24 characters at most. The
-- loop over the characters is not reached, since its length test has been made before.
unfoldable pub isstrinuuid : List ℕ → Bool
isstrinuuid uuid =
    let len = strnlen uuid digest_size in
    if ltb (digest_size / 4 * 3) len
    then false
    else is_zero (memcmp (replicate digest_size 0) (drop len uuid) (digest_size - len))
