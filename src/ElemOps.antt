-- ===== src/ElemOps.antt =====
-- Conversions of elements: numbers with the highest byte first, and uuids as text, of
-- cubelib/struct_mod/struct_ops.c.
pub mod RoundTrip
mod Tests
use cube.Prelude.{
  ℕ, zero, suc, ◌+◌, ◌-◌, ◌*◌, ◌/◌, ◌%◌, ◌^◌, Bool, true, false, ◌&&◌, Option, none, some, List, [],
  ◌∷◌, ◌++◌, ℤ, pos, negsuc, einval, leb, ltb, ◌==◌, if◌then◌else◌, length, get_or, drop, memset,
  digest_size,
}
use cube.Strings.{strlen, strnlen, strncpy}
use cube.Hex.{isstrinuuid}

-- `UINT16ToArray`, `UINT32ToArray` and `UINT64ToArray`.
pub uint16_to_array : ℕ → List ℕ
uint16_to_array i = i / 2 ^ 8 % 256 ∷ i % 256 ∷ []

pub uint32_to_array : ℕ → List ℕ
uint32_to_array i = i / 2 ^ 24 % 256 ∷ i / 2 ^ 16 % 256 ∷ i / 2 ^ 8 % 256 ∷ i % 256 ∷ []

pub uint64_to_array : ℕ → List ℕ
uint64_to_array i =
    i / 2 ^ 56 % 256
    ∷ i / 2 ^ 48 % 256
    ∷ i / 2 ^ 40 % 256
    ∷ i / 2 ^ 32 % 256
    ∷ i / 2 ^ 24 % 256
    ∷ i / 2 ^ 16 % 256
    ∷ i / 2 ^ 8 % 256
    ∷ i % 256
    ∷ []

-- `Decode_UINT16`; the two parts have no bit in common, so that their sum is what `|` gives.
pub decode_uint16 : List ℕ → ℕ
decode_uint16 y = get_or y 1 0 % 256 + get_or y 0 0 * 256 % 2 ^ 16

-- A step of `Decode_UINT64`.
abbrev pub shifted_in : ℕ → ℕ → ℕ
shifted_in x b = x * 256 % 2 ^ 64 + b % 256

-- `Decode_UINT64`.
pub decode_uint64 : List ℕ → ℕ
decode_uint64 y =
    shifted_in
      (shifted_in
        (shifted_in
          (shifted_in
            (shifted_in (shifted_in (shifted_in (get_or y 0 0) (get_or y 1 0)) (get_or y 2 0))
              (get_or y 3 0))
            (get_or y 4 0))
          (get_or y 5 0))
        (get_or y 6 0))
      (get_or y 7 0)

-- A digit of `_digest_to_uuid`.
unfoldable pub uuid_digit : ℕ → ℕ
uuid_digit tempdata = if ltb 9 tempdata then tempdata - 10 + b'a' else tempdata + b'0'

-- The loop of `_digest_to_uuid` over `n` bytes: the text without a terminator.
unfoldable pub digest_loop : ℕ → List ℕ → List ℕ
unfolding uuid_digit
digest_loop zero digest = []
digest_loop (suc n) digest =
    let c = get_or digest 0 0 in
    uuid_digit (c / 16) ∷ uuid_digit (c * 16 % 256 / 16) ∷ digest_loop n (drop 1 digest)

-- `_digest_to_uuid` into an array: the status and the array.
unfoldable pub digest_to_uuid : List ℕ → List ℕ → ℤ × List ℕ
unfolding digest_loop
digest_to_uuid digest uuid =
    (pos (digest_size * 2), digest_loop digest_size digest ++ drop (digest_size * 2) uuid)

-- A digit of `_uuid_to_digest`, `none` for -EINVAL.
unfoldable pub uuid_value : ℕ → Option ℕ
uuid_value c =
    if leb b'0' c && leb c b'9'
    then some (c - b'0')
    else if leb b'a' c && leb c b'f'
    then some (c - b'a' + 10)
    else if leb b'A' c && leb c b'F'
    then some (c - b'A' + 10)
    else none

abbrev pub with_byte : ℕ → ℤ × List ℕ → ℤ × List ℕ
with_byte b (status, bytes) = (status, b ∷ bytes)

-- The loop of `_uuid_to_digest` over `n` pairs of characters: the status and the bytes that are
-- stored, the last one without its low half where the second character of a pair is refused.
unfoldable pub uuid_loop : ℕ → List ℕ → ℤ × List ℕ
unfolding uuid_value
uuid_loop zero uuid = (pos 0, [])
uuid_loop (suc n) uuid = elim (uuid_value (get_or uuid 0 0)) [
  | none ↦ (einval, [])
  | some high ↦ elim (uuid_value (get_or uuid 1 0)) [
    | none ↦ (einval, high * 16 % 256 ∷ [])
    | some low ↦ with_byte ((high * 16 % 256 + low) % 256) (uuid_loop n (drop 2 uuid))
  ]
]

abbrev pub stored_over : List ℕ → ℤ × List ℕ → ℤ × List ℕ
stored_over digest (status, bytes) = (status, bytes ++ drop (length bytes) digest)

-- `_uuid_to_digest` into an array.
unfoldable pub uuid_to_digest : List ℕ → List ℕ → ℤ × List ℕ
unfolding uuid_loop
uuid_to_digest uuid digest = stored_over digest (uuid_loop digest_size uuid)

-- The characters of a name that is stored in place of a uuid.
abbrev pub name_size : ℕ
name_size = digest_size / 4 * 3

-- `uuid_get_text_value`: a name is copied, and a uuid is written in hexadecimal digits.
unfoldable pub uuid_get_text_value : List ℕ → List ℕ → ℤ × List ℕ
unfolding digest_to_uuid
uuid_get_text_value addr text =
    if isstrinuuid addr
    then (let named = strncpy (memset text 0 0 digest_size) addr name_size in
        (pos (strlen named), named))
    else digest_to_uuid addr text

-- `uuid_set_text_value`.
unfoldable pub uuid_set_text_value : List ℕ → List ℕ → ℤ × List ℕ
unfolding uuid_to_digest
uuid_set_text_value addr text =
    if ltb (strnlen text (digest_size * 2)) name_size
    then (pos digest_size, strncpy (memset addr 0 0 digest_size) text name_size)
    else uuid_to_digest text addr
