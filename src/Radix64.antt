-- ===== src/Radix64.antt =====
-- The base 64 code without padding: cubelib/crypto/radix64.c.
pub mod RoundTrip
mod Tests
use cube.Prelude.{
  ℕ, ◌+◌, ◌-◌, ◌*◌, ◌/◌, ◌%◌, List, [], ◌∷◌, ◌++◌, ◌||◌, ◌&&◌, Bool, ℤ, pos, einval, ltb, leb, ◌==◌,
  if◌then◌else◌, length, get_or, codes,
}

-- `radix64_tab`.
abbrev pub radix64_tab : List ℕ
radix64_tab = codes "ABCDEFGHIJKLMNOPQRSTUVWXYZabcdefghijklmnopqrstuvwxyz0123456789+/="

-- `radix64_tab[v]`.
pub to_char : ℕ → ℕ
to_char v = get_or radix64_tab v 0

-- The loops of `bin_to_radix64`: three bytes make four digits, of which each is then replaced by
-- its character; one or two bytes at the end make two or three.
pub encode : List ℕ → List ℕ
encode [] = []
encode (a ∷ []) = to_char (a / 4) ∷ to_char (a % 4 * 16) ∷ []
encode (a ∷ b ∷ []) = to_char (a / 4) ∷ to_char (a % 4 * 16 + b / 16) ∷ to_char (b % 16 * 4) ∷ []
encode (a ∷ b ∷ c ∷ bin) =
    to_char (a / 4)
    ∷ to_char (a % 4 * 16 + b / 16)
    ∷ to_char (b % 16 * 4 + c / 64)
    ∷ to_char (c % 64)
    ∷ encode bin

-- `bin_to_radix64`: the length, and the text with its terminator.
pub bin_to_radix64 : List ℕ → ℕ × List ℕ
bin_to_radix64 bin = (length (encode bin), encode bin ++ 0 ∷ [])

-- `bin_from_radix64_char`.
pub bin_from_radix64_char : ℕ → ℕ
bin_from_radix64_char c =
    if leb b'A' c && leb c b'Z'
    then c - b'A'
    else if leb b'a' c && leb c b'z'
    then c - b'a' + 26
    else if leb b'0' c && leb c b'9'
    then c - b'0' + 26 * 2
    else if c == b'+'
    then 62
    else if c == b'/'
    then 63
    else if c == b'='
    then 64
    else 0xff

abbrev pub invalid : ℕ → Bool
invalid t = t == 0xff

-- What the loop has written so far is kept when a later group is refused.
abbrev pub group : List ℕ → ℤ × List ℕ → ℤ × List ℕ
group bytes (status, bin) = (status, bytes ++ bin)

-- The loop of `radix64_to_bin` over the groups that are left, with the status `done` at its end:
-- the status and the bytes that are stored. No group of one character is met.
pub decode : ℤ → List ℕ → ℤ × List ℕ
decode done [] = (done, [])
decode done (c₀ ∷ []) = (einval, [])
decode done (c₀ ∷ c₁ ∷ []) =
    let t₀ = bin_from_radix64_char c₀ in
    let t₁ = bin_from_radix64_char c₁ in
    if invalid t₀ || invalid t₁ then (einval, []) else (done, (t₀ * 4 + t₁ / 16) % 256 ∷ [])
decode done (c₀ ∷ c₁ ∷ c₂ ∷ []) =
    let t₀ = bin_from_radix64_char c₀ in
    let t₁ = bin_from_radix64_char c₁ in
    let t₂ = bin_from_radix64_char c₂ in
    if invalid t₀ || (invalid t₁ || invalid t₂)
    then (einval, [])
    else (done, (t₀ * 4 + t₁ / 16) % 256 ∷ (t₁ * 16 + t₂ / 4) % 256 ∷ [])
decode done (c₀ ∷ c₁ ∷ c₂ ∷ c₃ ∷ cs) =
    let t₀ = bin_from_radix64_char c₀ in
    let t₁ = bin_from_radix64_char c₁ in
    let t₂ = bin_from_radix64_char c₂ in
    let t₃ = bin_from_radix64_char c₃ in
    let rest = decode done cs in
    if invalid t₀ || (invalid t₁ || (invalid t₂ || invalid t₃))
    then (einval, [])
    else group ((t₀ * 4 + t₁ / 16) % 256 ∷ (t₁ * 16 + t₂ / 4) % 256 ∷ (t₂ * 64 + t₃) % 256 ∷ [])
        rest

-- What `radix64_to_bin` returns for a length whose groups are all good.
pub decoded_length : ℕ → ℕ
decoded_length n =
    if n % 4 == 2 then n / 4 * 3 + 1 else if n % 4 == 3 then n / 4 * 3 + 2 else n / 4 * 3

-- `radix64_to_bin`: the status and the bytes that are stored.
pub radix64_to_bin : List ℕ → ℤ × List ℕ
radix64_to_bin radix64 =
    let n = length radix64 in
    if n % 4 == 1 then (einval, []) else decode (pos (decoded_length n)) radix64

-- `bin_to_radix64_len`.
pub bin_to_radix64_len : ℕ → ℕ
bin_to_radix64_len n = (n * 4 + 2) / 3

-- `radix_to_bin_len`.
pub radix_to_bin_len : ℕ → ℤ
radix_to_bin_len n =
    if n % 4 == 1
    then einval
    else if n % 4 == 0
    then pos (n / 4 * 3)
    else pos (n / 4 * 3 + n % 4 - 1)
