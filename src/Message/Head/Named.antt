-- ===== src/Message/Head/Named.antt =====
-- The two ways to name the receiver of a message, message_set_receiver and
-- message_set_receiver_uuid of cubelib/message/message.c, for a uuid and for a text.
use cube.Prelude.{
  ℕ, ◌-◌, ◌*◌, ◌≡◌, refl, ap, Bool-cases, inl, inr, ◌∙◌, sym, false, ◌==◌, ltb, if◌then◌else◌, List,
  [], ◌++◌, ℤ, pos, einval, length, take, drop, replicate, length-replicate, All, IsByte,
  digest_size, memset_all, memcpy, length-memcpy, slice, slice_all, slice-memcpy, arith,
}
use cube.Strings.{strlen}
use cube.Strings.Whole.{IsChar, strlen-chars, strncpy-full, strncpy-padded}
use cube.Hex.{isstrinuuid}
use cube.ElemOps.{name_size, digest_to_uuid, uuid_to_digest}
use cube.ElemOps.RoundTrip.{digest_to_uuid-chars, uuid_to_digest-digest_to_uuid}
use cube.Message.{MessageBox}
use cube.Message.Head.{
  set_field, set_field_uuid, with_digest, with_receiver, message_set_receiver,
  message_set_receiver_uuid,
}

abbrev zeros : List ℕ
zeros = replicate digest_size 0

memcpy_all :
    (into from : List ℕ) (n : ℕ) → length into ≡ n → length from ≡ n → memcpy into 0 from 0 n ≡ from
memcpy_all into from n e f =
    let all : List ℕ = memcpy into 0 from 0 n in
    sym (slice_all all)
    ∙ ap (slice all 0) (length-memcpy into 0 from 0 n ∙ e)
    ∙ slice-memcpy into 0 from 0 n (omega arith)
    ∙ ap (slice from 0) (sym f)
    ∙ slice_all from

-- The 64 digits of a uuid.
abbrev pub digits : List ℕ → List ℕ
digits digest = (digest_to_uuid digest []).1

set_field-digits :
    (field digest : List ℕ)
    → length field ≡ digest_size
    → length digest ≡ digest_size
    → All IsByte digest
    → set_field field (digits digest)
      ≡ (pos 0, take name_size (digits digest) ++ drop name_size digest)
unfolding set_field with_digest
set_field-digits field digest e l h =
    let facts = digest_to_uuid-chars digest in
    let size : strlen (digits digest) ≡ digest_size * 2 =
      strlen-chars (digits digest) facts.0 ∙ facts.1 in
    let stored : uuid_to_digest (digits digest) zeros ≡ (pos 0, digest) =
      uuid_to_digest-digest_to_uuid digest [] zeros l h (length-replicate {A = ℕ} digest_size 0) in
    rw (memset_all field digest_size e, size, stored)
      (ap (λ f. (pos 0, f))
        (strncpy-full digest (digits digest) name_size (omega arith) (omega (arith, facts.1))
          facts.0))

set_field_uuid-digest :
    (field digest : List ℕ)
    → length field ≡ digest_size
    → length digest ≡ digest_size
    → isstrinuuid digest ≡ false
    → set_field_uuid field digest ≡ digest
unfolding set_field_uuid
set_field_uuid-digest field digest e l u =
    rw (u, memset_all field digest_size e)
      (memcpy_all zeros digest digest_size (length-replicate {A = ℕ} digest_size 0) l)

-- What `message_set_receiver` stores of a text that is not 64 characters long.
abbrev named : List ℕ → ℤ × List ℕ
named text =
    if ltb name_size (length text)
    then (einval, zeros)
    else (pos 0, text ++ replicate (digest_size - length text) 0)

set_field-text :
    (field text : List ℕ)
    → length field ≡ digest_size
    → All IsChar text
    → (length text == digest_size * 2) ≡ false
    → set_field field text ≡ named text
unfolding set_field
set_field-text field text e h l =
    rw (memset_all field digest_size e, strlen-chars text h, l)
      (elim (Bool-cases (ltb name_size (length text))) [
        | inl long ↦ rw long refl
        | inr short ↦ rw short (
            ap (λ f. (pos 0, f))
              (strncpy-padded text name_size digest_size (ground arith) (omega arith) h))
      ])

module _ {S : Type 0} (m : MessageBox S) where
  abbrev pub received_by : List ℕ → MessageBox S
  received_by field = record m { head = record (m.head) { receiver_uuid = field } }

  -- The receiver named by the 64 digits of a uuid is stored as the first 24 of them and the last 8
  -- bytes of the uuid, but named by the uuid itself, where that is not a text, as the uuid.
  pub message_set_receiver-digits :
      (digest : List ℕ)
      → length m.head.receiver_uuid ≡ digest_size
      → length digest ≡ digest_size
      → All IsByte digest
      → isstrinuuid digest ≡ false
      → (message_set_receiver m (digits digest)
          ≡ (pos 0, received_by (take name_size (digits digest) ++ drop name_size digest)))
        × (message_set_receiver_uuid m digest ≡ (pos 0, received_by digest))
  unfolding message_set_receiver message_set_receiver_uuid with_receiver
  message_set_receiver-digits digest e l h u = (
    ap (with_receiver m) (set_field-digits m.head.receiver_uuid digest e l h),
    ap (λ f. (pos 0, received_by f)) (set_field_uuid-digest m.head.receiver_uuid digest e l u),
  )

  -- A receiver of at most 24 characters is stored with zeros behind it. Of one that has more, but not
  -- 64, the message loses the receiver that it had, with EINVAL.
  message_set_receiver-text :
      (text : List ℕ)
      → length m.head.receiver_uuid ≡ digest_size
      → All IsChar text
      → (length text == digest_size * 2) ≡ false
      → message_set_receiver m text ≡ with_receiver m (named text)
  unfolding message_set_receiver
  message_set_receiver-text text e h l =
      ap (with_receiver m) (set_field-text m.head.receiver_uuid text e h l)
