-- ===== src/Hex/Uuid.antt =====
-- The tests on uuids.
use cube.Prelude.{
  is_zero, digest_size, ℕ, zero, suc, ◌+◌, ◌≤◌, ◌<◌, ◌≡◌, ◌↔◌, refl, List, true, Bool-cases, inl,
  inr, sym, ◌∙◌, ==→eq, arith, pos, negsuc, ℤ, ◌==◌, length, get_or, take, replicate,
  length-replicate, take_all,
}
use cube.Strings.{memcmp}
use cube.Strings.Compare.{memcmp_zero}
use cube.Hex.{all_hex, isvaliduuid, isemptyuuid, ishexdigit}

all_hex_iff :
    (uuid : List ℕ) (i n : ℕ)
    → (all_hex uuid i n ≡ true)
      ↔ ((j : ℕ) → i ≤ j → j < i + n → ishexdigit (get_or uuid j 0) ≡ true)
unfolding all_hex
all_hex_iff uuid i zero = (λ _ j l h. absurd (omega arith), λ _. refl)
all_hex_iff uuid i (suc n) =
    let ih = all_hex_iff uuid (i + 1) n in
    elim (Bool-cases (ishexdigit (get_or uuid i 0))) [
      | inl good ↦ rw good (
        λ e j l h. elim (Bool-cases (i == j)) [
          | inl here ↦ rw (← ==→eq i j here) good
          | inr later ↦ ih.0 e j (ground arith) (omega arith)
        ],
        λ f. ih.1 (λ j l h. f j (omega arith) (omega arith)),
      )
      | inr bad ↦ rw bad (λ e. cc, λ f. sym bad ∙ f i (omega arith) (omega arith))
    ]

-- `Isvaliduuid` accepts exactly the texts whose first 64 characters are hexadecimal digits.
pub isvaliduuid_iff :
    (uuid : List ℕ)
    → (isvaliduuid uuid ≡ true) ↔ ((j : ℕ) → j < 64 → ishexdigit (get_or uuid j 0) ≡ true)
unfolding isvaliduuid
isvaliduuid_iff uuid =
    let h = all_hex_iff uuid 0 64 in
    (λ e j l. h.0 e j (omega arith) (omega arith), λ f. h.1 (λ j _ l. f j (omega arith)))

is_zero_iff : (z : ℤ) → (is_zero z ≡ true) ↔ (z ≡ pos 0)
is_zero_iff (pos d) = (λ e. ground arith, λ e. ground arith)
is_zero_iff (negsuc n) = (λ e. cc, λ e. cc)

compared :
    (block uuid : List ℕ) (n : ℕ)
    → 0 < n
    → length block ≡ n
    → length uuid ≡ n
    → (is_zero (memcmp block uuid n) ≡ true) ↔ (uuid ≡ block)
compared block uuid n some_count h k =
    let c = memcmp_zero block uuid n some_count (omega arith) (omega arith) in
    let z = is_zero_iff (memcmp block uuid n) in
    let tb : take n block ≡ block = take_all n block (omega arith) in
    let tu : take n uuid ≡ uuid = take_all n uuid (omega arith) in
    (λ e. sym tu ∙ sym (c.0 (z.0 e)) ∙ tb, λ e. z.1 (c.1 (tb ∙ sym e ∙ sym tu)))

-- `Isemptyuuid` accepts exactly the uuids whose 32 bytes are all 0.
pub isemptyuuid_iff :
    (uuid : List ℕ)
    → length uuid ≡ 32
    → (isemptyuuid uuid ≡ true) ↔ (uuid ≡ replicate digest_size 0)
unfolding isemptyuuid
isemptyuuid_iff uuid h =
    compared (replicate digest_size 0) uuid digest_size (omega arith)
      (length-replicate {A = ℕ} digest_size 0) h
