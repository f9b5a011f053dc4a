-- ===== src/Hex/RoundTrip.antt =====
-- What `hex_2_bin` makes of the text that `bin_2_hex` wrote.
use cube.Prelude.{
  ℕ, suc, ◌+◌, ◌-◌, ◌*◌, ◌/◌, ◌%◌, ◌≤◌, ◌<◌, ◌≡◌, ◌↔◌, refl, ap, ap₂, ◌∙◌, sym, List, [], ◌∷◌, map,
  some, ℤ, pos, true, false, arith, ltb, ◌==◌, if◌then◌else◌, length, length-set, get_or, set, take,
  take_all, subst, All, IsByte, slice, get_or-set_self, get_or-set_ne,
}
use cube.Strings.{strnlen}
use cube.Hex.{hex_digit, bin_2_hex, hex_value, hex_store, hex_loop, hex_2_bin}

-- A digit above 9 is written as a letter and read back without its ten.
abbrev pub collapse_digit : ℕ → ℕ
collapse_digit d = if ltb 9 d then d - 10 else d

abbrev pub collapse : ℕ → ℕ
collapse b = collapse_digit (b / 16) * 16 + collapse_digit (b % 16)

hex_value-hex_digit : (d : ℕ) → d < 16 → hex_value (hex_digit d) ≡ some (collapse_digit d)
unfolding hex_value hex_digit
hex_value-hex_digit d h = ground arith

-- Two rounds of the loop at an even index store one byte.
hex_store_twice :
    (i k u v : ℕ) (bin : List ℕ)
    → i ≡ k * 2
    → k < length bin
    → u < 16
    → v < 16
    → hex_store (i + 1) v (hex_store i u bin) ≡ set (set bin k (u * 16)) k (u * 16 + v)
unfolding hex_store
hex_store_twice i k u v bin e h hu hv =
    let even : (i % 2 == 0) ≡ true = ground arith in
    let odd : ((i + 1) % 2 == 0) ≡ false = ground arith in
    let at_i : i / 2 ≡ k = omega arith in
    let at_next : (i + 1) / 2 ≡ k = omega arith in
    let high : u * 16 % 256 ≡ u * 16 = omega arith in
    let both : (u * 16 + v) % 256 ≡ u * 16 + v = omega arith in
    rw (even, odd, at_i, at_next, high, get_or-set_self bin k (u * 16) 0 h, both)

hex_loop-step :
    (done : ℤ) (c var : ℕ) (hex : List ℕ) (i : ℕ) (bin : List ℕ)
    → hex_value c ≡ some var
    → hex_loop done (c ∷ hex) i bin ≡ hex_loop done hex (i + 1) (hex_store i var bin)
unfolding hex_loop
hex_loop-step done c var hex i bin e = rw (e, hex_loop)

-- One byte of text.
hex_loop-byte :
    (done : ℤ) (b : ℕ) (bytes : List ℕ) (i k : ℕ) (bin : List ℕ)
    → b < 256
    → i ≡ k * 2
    → k < length bin
    → hex_loop done (bin_2_hex (b ∷ bytes)) i bin
      ≡ hex_loop done
          (bin_2_hex bytes)
          (i + 1 + 1)
          (set (set bin k (collapse_digit (b / 16) * 16)) k (collapse b))
unfolding bin_2_hex
hex_loop-byte done b bytes i k bin h e l =
    let u = collapse_digit (b / 16) in
    let v = collapse_digit (b % 16) in
    hex_loop-step done (hex_digit (b / 16)) u (hex_digit (b % 16) ∷ bin_2_hex bytes) i bin
      (hex_value-hex_digit (b / 16) (omega arith))
    ∙ hex_loop-step done (hex_digit (b % 16)) v (bin_2_hex bytes) (i + 1) (hex_store i u bin)
        (hex_value-hex_digit (b % 16) (omega arith))
    ∙ ap (hex_loop done (bin_2_hex bytes) (i + 1 + 1))
        (hex_store_twice i k u v bin e l (ground arith) (ground arith))

abbrev Loops : ℤ → List ℕ → ℕ → List ℕ → ℤ × List ℕ → Type 0
Loops done bytes k bin (status, bin') =
    (status ≡ done)
    × ((j : ℕ) → j < k → get_or bin' j 0 ≡ get_or bin j 0)
    × (slice bin' k (length bytes) ≡ map collapse bytes)

-- The loop over the text of `bytes` from the byte `k` on: it ends well, stores the collapsed bytes
-- and leaves the bytes in front of them.
hex_loop-bin_2_hex :
    (done : ℤ) (bytes : List ℕ) (i k : ℕ) (bin : List ℕ)
    → All IsByte bytes
    → i ≡ k * 2
    → k + length bytes ≤ length bin
    → Loops done bytes k bin (hex_loop done (bin_2_hex bytes) i bin)
unfolding hex_loop bin_2_hex slice
hex_loop-bin_2_hex done [] i k bin h e l = (refl, λ j lt. refl, refl)
hex_loop-bin_2_hex done (b ∷ bytes) i k bin h e l =
    let first = set bin k (collapse_digit (b / 16) * 16) in
    let size : length first ≡ length bin = length-set bin k (collapse_digit (b / 16) * 16) in
    let size' : length (set first k (collapse b)) ≡ length bin =
      length-set first k (collapse b) ∙ size in
    let (status, before, stored) =
      hex_loop-bin_2_hex done bytes (i + 1 + 1) (k + 1) (set first k (collapse b)) h.1 (omega arith)
        (omega arith) in
    subst (Loops done (b ∷ bytes) k bin)
      (sym (hex_loop-byte done b bytes i k bin h.0 e (omega arith)))
      (
        status,
        λ j lt.
            before j (omega arith)
            ∙ get_or-set_ne first k j (collapse b) 0 (omega arith)
            ∙ get_or-set_ne bin k j (collapse_digit (b / 16) * 16) 0 (omega arith),
        ap₂ ◌∷◌ (before k (omega arith) ∙ get_or-set_self first k (collapse b) 0 (omega arith))
            stored,
      )

strnlen-bin_2_hex :
    (bytes : List ℕ)
    → All IsByte bytes
    → strnlen (bin_2_hex bytes) (length bytes * 2) ≡ length bytes * 2
unfolding strnlen bin_2_hex hex_digit
strnlen-bin_2_hex [] h = refl
strnlen-bin_2_hex (b ∷ bytes) h =
    let e : suc (length bytes) * 2 ≡ suc (suc (length bytes * 2)) = omega arith in
    rw e (ground (arith, strnlen-bin_2_hex bytes))

length-bin_2_hex : (bytes : List ℕ) → length (bin_2_hex bytes) ≡ length bytes * 2
unfolding bin_2_hex
length-bin_2_hex [] = refl
length-bin_2_hex (b ∷ bytes) = omega (arith, length-bin_2_hex bytes)

-- `hex_2_bin` of the text that `bin_2_hex` made of `bytes` returns their number and stores the
-- collapsed bytes: each digit above 9 has lost its ten.
pub hex_2_bin-bin_2_hex :
    (bytes bin : List ℕ)
    → All IsByte bytes
    → length bytes ≤ length bin
    → let (status, bin') = hex_2_bin (bin_2_hex bytes) (length bytes * 2) bin in
      (status ≡ pos (length bytes)) × (slice bin' 0 (length bytes) ≡ map collapse bytes)
unfolding hex_2_bin
hex_2_bin-bin_2_hex bytes bin h l =
    let n = length bytes in
    let len : strnlen (bin_2_hex bytes) (n * 2) ≡ n * 2 = strnlen-bin_2_hex bytes h in
    let even : (n * 2 % 2 == 0) ≡ true = ground arith in
    let half : n * 2 / 2 ≡ n = omega arith in
    let whole : take (n * 2) (bin_2_hex bytes) ≡ bin_2_hex bytes =
      take_all (n * 2) (bin_2_hex bytes) (omega (arith, length-bin_2_hex bytes)) in
    let (status, _, stored) = hex_loop-bin_2_hex (pos n) bytes 0 0 bin h refl (omega arith) in
    rw (len, even, half, whole) (status, stored)

-- The collapse keeps a byte exactly if both its digits are at most 9: the round trip through the
-- text fails for every other byte.
pub collapse_iff : (b : ℕ) → (collapse b ≡ b) ↔ ((b / 16 ≤ 9) × (b % 16 ≤ 9))
collapse_iff b = (λ e. ground arith, λ e. ground arith)
