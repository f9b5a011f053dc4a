-- ===== src/Bitmap/AllSet.antt =====
-- Which bitmaps `bitmap_is_allset` accepts.
use cube.Prelude.{
  ℕ, zero, suc, ◌+◌, ◌-◌, ◌*◌, ◌/◌, ◌%◌, ◌^◌, ◌<◌, ◌≤◌, ◌≡◌, ◌↔◌, refl, sym, ap, ◌∙◌, subst, Bool,
  true, false, Bool-cases, inl, inr, List, ◌==◌, ==→eq, arith, ltb, get_or, All, IsByte,
  get_or-IsByte, passes_under, passes_under-lt,
}
use cube.Bitmap.{bitmap_get, full_bytes, bitmap_is_allset}
use cube.Bitmap.Bits.{is_set, bit_in, same, same-eq}

passes_under-all :
    (test : ℕ → Bool) (bound : ℕ)
    → ((x : ℕ) → x < bound → test x ≡ true)
    → passes_under test bound ≡ true
unfolding passes_under
passes_under-all test zero f = refl
passes_under-all test (suc bound) f =
    rw (f bound (omega arith), passes_under)
      (passes_under-all test bound (λ x h. f x (omega arith)))

-- The byte of which the lowest `r` bits are set.
abbrev low : ℕ → ℕ
low r = 2 ^ r - 1

abbrev low_test : ℕ → ℕ → Bool
low_test r b = same (b == low r) (passes_under (λ j. same (bit_in b j) (ltb j r)) 8)

low_table : passes_under (λ r. passes_under (low_test r) 256) 9 ≡ true
unfolding passes_under
low_table = refl

shift_table : passes_under (λ r. 0x7f / 2 ^ (7 - r) == low r) 8 ≡ true
unfolding passes_under
shift_table = refl

same_refl : (a : Bool) → same a a ≡ true
same_refl true = refl
same_refl false = refl

byte_iff :
    (r b : ℕ) → r ≤ 8 → b < 256 → ((b == low r) ≡ true) ↔ ((j : ℕ) → j < 8 → bit_in b j ≡ ltb j r)
byte_iff r b hr hb =
    let test : ℕ → Bool = λ j. same (bit_in b j) (ltb j r) in
    let e : (b == low r) ≡ passes_under test 8 = same-eq _ _ (
      passes_under-lt (low_test r) 256
        (passes_under-lt (λ r. passes_under (low_test r) 256) 9 low_table r (omega arith)) b hb) in
    (
      λ h j l. same-eq _ _ (passes_under-lt test 8 (sym e ∙ h) j l),
      λ f.
          e
          ∙ passes_under-all test 8
              (λ j l. ap (λ a. same a (ltb j r)) (f j l) ∙ same_refl (ltb j r)),
    )

-- The bits of one byte of the map.
bits_iff :
    (bitmap : List ℕ) (i r : ℕ)
    → All IsByte bitmap
    → r ≤ 8
    → ((get_or bitmap i 0 == low r) ≡ true)
      ↔ ((j : ℕ) → j / 8 ≡ i → is_set bitmap j ≡ ltb (j % 8) r)
unfolding bitmap_get
bits_iff bitmap i r h hr =
    let b = byte_iff r (get_or bitmap i 0) hr (get_or-IsByte bitmap i h) in
    (
      λ e j at_i. ap (λ k. bit_in (get_or bitmap k 0) (j % 8)) at_i ∙ b.0 e (j % 8) (omega arith),
      λ f. b.1 (λ j l.
          let at_i : (i * 8 + j) / 8 ≡ i = omega arith in
          let at_j : (i * 8 + j) % 8 ≡ j = omega arith in
          sym (ap (bit_in (get_or bitmap i 0)) at_j)
          ∙ sym (ap (λ k. bit_in (get_or bitmap k 0) ((i * 8 + j) % 8)) at_i)
          ∙ f (i * 8 + j) at_i
          ∙ ap (λ k. ltb k r) at_j),
    )

full_bytes_iff :
    (bitmap : List ℕ) (i n : ℕ)
    → (full_bytes bitmap i n ≡ true)
      ↔ ((k : ℕ) → i ≤ k → k < i + n → (get_or bitmap k 0 == 0xff) ≡ true)
unfolding full_bytes
full_bytes_iff bitmap i zero = (λ e k l h. absurd (omega arith), λ f. refl)
full_bytes_iff bitmap i (suc n) =
    let later = full_bytes_iff bitmap (i + 1) n in
    elim (Bool-cases (get_or bitmap i 0 == 0xff)) [
      | inl full ↦ rw full (
        λ e k l h. elim (Bool-cases (i == k)) [
          | inl here ↦ subst (λ k. (get_or bitmap k 0 == 0xff) ≡ true) (==→eq i k here) full
          | inr above ↦ later.0 e k (ground arith) (omega arith)
        ],
        λ f. later.1 (λ k l h. f k (omega arith) (omega arith)),
      )
      | inr gap ↦ rw gap (λ e. cc, λ f. sym gap ∙ f i (omega arith) (omega arith))
    ]

shift-low : (r : ℕ) → r < 8 → 0x7f / 2 ^ (7 - r) ≡ low r
shift-low r h = ==→eq _ _ (passes_under-lt (λ r. 0x7f / 2 ^ (7 - r) == low r) 8 shift_table r h)

-- What is asked of the bit `j`.
abbrev Right : List ℕ → ℕ → ℕ → Type 0
Right bitmap size j = is_set bitmap j ≡ ltb j size

-- The full bytes, and the byte in which the size ends.
full_part :
    (bitmap : List ℕ) (size : ℕ)
    → All IsByte bitmap
    → (full_bytes bitmap 0 (size / 8) ≡ true) ↔ ((j : ℕ) → j / 8 < size / 8 → Right bitmap size j)
full_part bitmap size h = (
  λ e j l.
      (bits_iff bitmap (j / 8) 8 h (omega arith)).0
        ((full_bytes_iff bitmap 0 (size / 8)).0 e (j / 8) (omega arith) (omega arith)) j refl
      ∙ (let z : ltb (j % 8) 8 ≡ ltb j size = ground arith in z),
  λ f. (full_bytes_iff bitmap 0 (size / 8)).1 (λ k _ l.
      (bits_iff bitmap k 8 h (omega arith)).1
        (λ j at_k. f j (omega arith) ∙ (let z : ltb j size ≡ ltb (j % 8) 8 = ground arith in z))),
)

last_part :
    (bitmap : List ℕ) (size : ℕ)
    → All IsByte bitmap
    → ((get_or bitmap (size / 8) 0 == 0x7f / 2 ^ (7 - size % 8)) ≡ true)
      ↔ ((j : ℕ) → j / 8 ≡ size / 8 → Right bitmap size j)
last_part bitmap size h =
    let bits = bits_iff bitmap (size / 8) (size % 8) h (omega arith) in
    let mask = shift-low (size % 8) (omega arith) in
    (
      λ e j at_end.
          bits.0 (sym (ap (λ m. get_or bitmap (size / 8) 0 == m) mask) ∙ e) j at_end
          ∙ (let z : ltb (j % 8) (size % 8) ≡ ltb j size = ground arith in z),
      λ f.
          ap (λ m. get_or bitmap (size / 8) 0 == m) mask
          ∙ bits.1 (λ j at_end.
            f j at_end ∙ (let z : ltb j size ≡ ltb (j % 8) (size % 8) = ground arith in z)),
    )

-- `bitmap_is_allset` of a map of bytes accepts it exactly if each bit below the size is set and the
-- bits between the size and the end of its last byte are clear.
pub bitmap_is_allset_iff :
    (bitmap : List ℕ) (size : ℕ)
    → All IsByte bitmap
    → (bitmap_is_allset bitmap size ≡ true)
      ↔ ((j : ℕ) → j < (size + 7) / 8 * 8 → is_set bitmap j ≡ ltb j size)
unfolding bitmap_is_allset
bitmap_is_allset_iff bitmap size h =
    let full = full_part bitmap size h in
    let last = last_part bitmap size h in
    elim (Bool-cases (full_bytes bitmap 0 (size / 8))) [
      | inl t ↦ elim (Bool-cases (size % 8 == 0)) [
        | inl whole ↦ rw (t, whole) (λ e j l. full.0 t j (ground arith), λ f. refl)
        | inr rest ↦
            rw (t, rest)
              (
                λ e j l. elim (Bool-cases (j / 8 == size / 8)) [
                  | inl at_end ↦ last.0 e j (==→eq _ _ at_end)
                  | inr below ↦ full.0 t j (ground arith)
                ],
                λ f. last.1 (λ j at_end. f j (ground arith)),
              )
      ]
      | inr gap ↦ rw gap (λ e. cc, λ f. sym gap ∙ full.1 (λ j l. f j (omega arith)))
    ]
