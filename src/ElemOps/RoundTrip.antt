-- ===== src/ElemOps/RoundTrip.antt =====
-- Numbers and uuids are read back as they were written.
use cube.Prelude.{
  ℕ, zero, suc, ◌+◌, ◌*◌, ◌/◌, ◌%◌, ◌^◌, ◌<◌, ◌≡◌, refl, ap, ◌∙◌, false, Bool-cases, inl, inr, some,
  List, [], ◌∷◌, ◌++◌, ℤ, pos, ltb, ◌==◌, arith, append-nil, All, IsByte, length, drop, drop_all,
  digest_size,
}
use cube.Strings.{strnlen}
use cube.Strings.Whole.{IsChar}
use cube.Hex.{isstrinuuid}
use cube.ElemOps.{
  uint16_to_array, uint64_to_array, decode_uint16, decode_uint64, uuid_digit, digest_loop,
  digest_to_uuid, uuid_value, with_byte, uuid_loop, uuid_to_digest, uuid_get_text_value,
  uuid_set_text_value,
}

-- `Decode_UINT64` reads every number of 64 bits back that `UINT64ToArray` writes, and `Decode_UINT16`
-- its lowest 16 bits from what `UINT16ToArray` writes of them.
decode-to_array :
    (i : ℕ)
    → i < 2 ^ 64
    → (decode_uint64 (uint64_to_array i) ≡ i)
      × (decode_uint16 (uint16_to_array (i % 2 ^ 16)) ≡ i % 2 ^ 16)
unfolding decode_uint16 decode_uint64 uint16_to_array uint64_to_array
decode-to_array i h = (omega arith, omega arith)

uuid_value-digit : (n : ℕ) → n < 16 → uuid_value (uuid_digit n) ≡ some n
unfolding uuid_value uuid_digit
uuid_value-digit n h = elim (Bool-cases (ltb 9 n)) [
  | inl letter ↦ rw letter (ground arith)
  | inr number ↦ rw number (ground arith)
]

uuid_loop-pair :
    (n a b high low : ℕ) (rest : List ℕ)
    → uuid_value a ≡ some high
    → uuid_value b ≡ some low
    → uuid_loop (suc n) (a ∷ b ∷ rest)
      ≡ with_byte ((high * 16 % 256 + low) % 256) (uuid_loop n rest)
unfolding uuid_loop
uuid_loop-pair n a b high low rest e f = rw (uuid_loop, e, f) refl

uuid_loop-digest :
    (n : ℕ) (digest rest : List ℕ)
    → length digest ≡ n
    → All IsByte digest
    → uuid_loop n (digest_loop n digest ++ rest) ≡ (pos 0, digest)
unfolding uuid_loop digest_loop
uuid_loop-digest zero [] rest e h = refl
uuid_loop-digest zero (b ∷ digest) rest e h = absurd (omega arith)
uuid_loop-digest (suc n) [] rest e h = absurd (omega arith)
uuid_loop-digest (suc n) (b ∷ digest) rest e h =
    uuid_loop-pair n (uuid_digit (b / 16)) (uuid_digit (b * 16 % 256 / 16)) (b / 16)
      (b * 16 % 256 / 16) (digest_loop n digest ++ rest) (uuid_value-digit (b / 16) (omega arith))
      (uuid_value-digit (b * 16 % 256 / 16) (omega arith))
    ∙ ap (with_byte ((b / 16 * 16 % 256 + b * 16 % 256 / 16) % 256))
        (uuid_loop-digest n digest rest (omega arith) h.1)
    ∙ ap (λ c. (pos 0, c ∷ digest)) (omega (arith, h.0))

length-digest_loop : (n : ℕ) (digest : List ℕ) → length (digest_loop n digest) ≡ n * 2
unfolding digest_loop
length-digest_loop zero digest = omega arith
length-digest_loop (suc n) digest = omega (arith, length-digest_loop n (drop 1 digest))

uuid_digit-some : (n : ℕ) → (uuid_digit n == 0) ≡ false
unfolding uuid_digit
uuid_digit-some n = ground arith

strnlen-some :
    (n c d : ℕ) (str : List ℕ)
    → (c == 0) ≡ false
    → (d == 0) ≡ false
    → strnlen (c ∷ d ∷ str) (suc (suc n)) ≡ suc (suc (strnlen str n))
unfolding strnlen
strnlen-some n c d str e f = rw (e, f) refl

strnlen-digest :
    (n : ℕ) (digest rest : List ℕ) → strnlen (digest_loop n digest ++ rest) (n * 2) ≡ n * 2
unfolding digest_loop strnlen
strnlen-digest zero digest rest = refl
strnlen-digest (suc n) digest rest =
    let twice : suc n * 2 ≡ suc (suc (n * 2)) = omega arith in
    rw twice (
      strnlen-some (n * 2) _ _ (digest_loop n (drop 1 digest) ++ rest) (uuid_digit-some _)
        (uuid_digit-some _)
      ∙ ap (λ k. suc (suc k)) (strnlen-digest n (drop 1 digest) rest))

-- `_uuid_to_digest` reads the 32 bytes back that `_digest_to_uuid` writes as hexadecimal digits, into
-- any array of 32 bytes.
pub uuid_to_digest-digest_to_uuid :
    (digest uuid into : List ℕ)
    → length digest ≡ digest_size
    → All IsByte digest
    → length into ≡ digest_size
    → uuid_to_digest (digest_to_uuid digest uuid).1 into ≡ (pos 0, digest)
unfolding uuid_to_digest digest_to_uuid
uuid_to_digest-digest_to_uuid digest uuid into l h r =
    rw
      (
        uuid_loop-digest digest_size digest (drop (digest_size * 2) uuid) l h,
        drop_all (length digest) into (omega arith),
        append-nil digest,
      )
      refl

uuid_get-bytes :
    (addr text : List ℕ)
    → isstrinuuid addr ≡ false
    → uuid_get_text_value addr text ≡ digest_to_uuid addr text
unfolding uuid_get_text_value
uuid_get-bytes addr text u = rw (uuid_get_text_value, u) refl

uuid_set-digits :
    (addr text : List ℕ)
    → strnlen text (digest_size * 2) ≡ digest_size * 2
    → uuid_set_text_value addr text ≡ uuid_to_digest text addr
unfolding uuid_set_text_value
uuid_set-digits addr text e = rw (uuid_set_text_value, e) refl

digits-strnlen :
    (addr text : List ℕ) → strnlen (digest_to_uuid addr text).1 (digest_size * 2) ≡ digest_size * 2
unfolding digest_to_uuid
digits-strnlen addr text = strnlen-digest digest_size addr (drop (digest_size * 2) text)

digits-status : (addr text : List ℕ) → (digest_to_uuid addr text).0 ≡ pos (digest_size * 2)
unfolding digest_to_uuid
digits-status addr text = refl

-- A uuid of 32 bytes that is not a name: `uuid_get_text_value` writes 64 characters, which
-- `uuid_set_text_value` stores as the same uuid into any field of 32 bytes.
pub uuid_set-uuid_get :
    (addr text into : List ℕ)
    → length addr ≡ digest_size
    → All IsByte addr
    → isstrinuuid addr ≡ false
    → length into ≡ digest_size
    → ((uuid_get_text_value addr text).0 ≡ pos (digest_size * 2))
      × (uuid_set_text_value into (uuid_get_text_value addr text).1 ≡ (pos 0, addr))
uuid_set-uuid_get addr text into l h u r =
    let got = uuid_get-bytes addr text u in
    (
      ap (λ (x : ℤ × List ℕ). x.0) got ∙ digits-status addr text,
      ap (λ (x : ℤ × List ℕ). uuid_set_text_value into x.1) got
          ∙ uuid_set-digits into (digest_to_uuid addr text).1 (digits-strnlen addr text)
          ∙ uuid_to_digest-digest_to_uuid addr text into l h r,
    )

digest_loop-chars : (n : ℕ) (digest : List ℕ) → All IsChar (digest_loop n digest)
unfolding digest_loop
digest_loop-chars zero digest = tt
digest_loop-chars (suc n) digest =
    (uuid_digit-some _, (uuid_digit-some _, digest_loop-chars n (drop 1 digest)))

digits_chars :
    (n : ℕ) (digest text : List ℕ)
    → text ≡ digest_loop n digest
    → All IsChar text × (length text ≡ n * 2)
digits_chars n digest text e = rw e (digest_loop-chars n digest, length-digest_loop n digest)

-- `_digest_to_uuid` writes 64 characters.
pub digest_to_uuid-chars :
    (digest : List ℕ)
    → All IsChar (digest_to_uuid digest []).1
      × (length (digest_to_uuid digest []).1 ≡ digest_size * 2)
unfolding digest_to_uuid
digest_to_uuid-chars digest =
    digits_chars digest_size digest (digest_to_uuid digest []).1
      (append-nil (digest_loop digest_size digest))
