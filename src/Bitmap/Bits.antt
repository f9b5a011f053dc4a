-- ===== src/Bitmap/Bits.antt =====
-- One bit of a bitmap at a time.
use cube.Prelude.{
  ℕ, ◌-◌, ◌/◌, ◌%◌, ◌^◌, ◌<◌, ◌≡◌, refl, sym, ap, ap₂, ◌∙◌, Bool, true, false, Bool-cases, inl, inr,
  not, List, bit_and, bit_or, ◌==◌, ==→eq, arith, if◌then◌else◌, length, get_or, set, All, IsByte,
  get_or-IsByte, get_or-set_self, get_or-set_ne, passes_under, passes_under-lt,
}
use cube.Bitmap.{bitmap_set, bitmap_clear, bitmap_get}

-- Whether a bit is set.
abbrev pub is_set : List ℕ → ℕ → Bool
is_set bitmap site = not (bitmap_get bitmap site == 0)

abbrev pub same : Bool → Bool → Bool
same a b = if a then b else not b

abbrev pub bit_in : ℕ → ℕ → Bool
bit_in byte j = not (bit_and byte (2 ^ j) == 0)

abbrev set_test : ℕ → ℕ → ℕ → Bool
set_test b k j = same (bit_in (bit_or b (2 ^ k)) j) (if k == j then true else bit_in b j)

abbrev clear_test : ℕ → ℕ → ℕ → Bool
clear_test b k j = same (bit_in (bit_and b (255 - 2 ^ k)) j) (if k == j then false else bit_in b j)

abbrev all_bits : (ℕ → ℕ → ℕ → Bool) → Bool
all_bits test = passes_under (λ b. passes_under (λ k. passes_under (test b k) 8) 8) 256

set_table : all_bits set_test ≡ true
unfolding passes_under
set_table = refl

clear_table : all_bits clear_test ≡ true
unfolding passes_under
clear_table = refl

at_bits :
    (test : ℕ → ℕ → ℕ → Bool)
    → all_bits test ≡ true
    → (b k j : ℕ) → b < 256
    → k < 8
    → j < 8
    → test b k j ≡ true
at_bits test table b k j hb hk hj =
    passes_under-lt (test b k) 8
      (passes_under-lt (λ k. passes_under (test b k) 8) 8
        (passes_under-lt (λ b. passes_under (λ k. passes_under (test b k) 8) 8) 256 table b hb) k
        hk)
      j hj

pub same-eq : (a b : Bool) → same a b ≡ true → a ≡ b
same-eq true true e = refl
same-eq true false e = ground arith
same-eq false true e = ground arith
same-eq false false e = refl

-- Two sites are the same if they agree in their byte and in their bit.
same_site : (site other : ℕ) → site / 8 ≡ other / 8 → (site % 8 == other % 8) ≡ (site == other)
same_site site other e = ground arith

-- Another byte is stored in place of that of `site`: what becomes of the bit of `other`.
stored_bit :
    (bitmap : List ℕ) (site other stored : ℕ) (outcome : Bool)
    → site / 8 < length bitmap
    → bit_in stored (other % 8)
      ≡ (if site % 8 == other % 8 then outcome else bit_in (get_or bitmap (site / 8) 0) (other % 8))
    → is_set (set bitmap (site / 8) stored) other
      ≡ (if site == other then outcome else is_set bitmap other)
unfolding bitmap_get
stored_bit bitmap site other stored outcome inside bits =
    elim (Bool-cases (site / 8 == other / 8)) [
      | inl here ↦
          let e : site / 8 ≡ other / 8 = ==→eq _ _ here in
          ap (λ byte. bit_in byte (other % 8))
            (ap (λ i. get_or (set bitmap (site / 8) stored) i 0) (sym e)
              ∙ get_or-set_self bitmap (site / 8) stored 0 inside)
          ∙ bits
          ∙ ap₂ (λ (c x : Bool). if c then outcome else x) (same_site site other e)
              (ap (λ i. bit_in (get_or bitmap i 0) (other % 8)) e)
      | inr elsewhere ↦
          let differ : (site == other) ≡ false = ground arith in
          rw differ (
            ap (λ byte. bit_in byte (other % 8))
              (get_or-set_ne bitmap (site / 8) (other / 8) stored 0 (ground arith)))
    ]

-- `bitmap_set` of a site inside the map sets this bit, `bitmap_clear` clears it, and both leave all
-- others as they were.
pub bitmap_get-bitmap_set :
    (bitmap : List ℕ) (site other : ℕ)
    → All IsByte bitmap
    → site / 8 < length bitmap
    → (is_set (bitmap_set bitmap site) other
        ≡ (if site == other then true else is_set bitmap other))
      × (is_set (bitmap_clear bitmap site) other
          ≡ (if site == other then false else is_set bitmap other))
unfolding bitmap_set bitmap_clear
bitmap_get-bitmap_set bitmap site other h inside =
    let byte : ℕ = get_or bitmap (site / 8) 0 in
    let b : byte < 256 = get_or-IsByte bitmap (site / 8) h in
    let k : site % 8 < 8 = omega arith in
    let j : other % 8 < 8 = omega arith in
    (
      stored_bit bitmap site other _ true inside
          (same-eq _ _ (at_bits set_test set_table byte (site % 8) (other % 8) b k j)),
      stored_bit bitmap site other _ false inside
          (same-eq _ _ (at_bits clear_test clear_table byte (site % 8) (other % 8) b k j)),
    )
