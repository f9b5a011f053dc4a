-- ===== src/ElemOps/Tests.antt =====
-- A uuid and numbers, and the theorems at them.
use cube.Prelude.{
  ℕ, zero, suc, ◌*◌, ◌≡◌, refl, List, [], pos, arith, All, IsByte, replicate, length-replicate,
  digest_size,
}
use cube.Strings.{strnlen}
use cube.Hex.{isstrinuuid}
use cube.ElemOps.{uuid_get_text_value, uuid_set_text_value}
use cube.ElemOps.RoundTrip.{uuid_set-uuid_get}

abbrev some_uuid : List ℕ
some_uuid = replicate 32 200

some_uuid-IsByte : (n : ℕ) → All IsByte (replicate n 200)
some_uuid-IsByte zero = tt
some_uuid-IsByte (suc n) = (omega arith, some_uuid-IsByte n)

uuid_set-uuid_get_example :
    ((uuid_get_text_value some_uuid []).0 ≡ pos (digest_size * 2))
    × (uuid_set_text_value (replicate 32 0) (uuid_get_text_value some_uuid []).1
        ≡ (pos 0, some_uuid))
unfolding isstrinuuid strnlen
uuid_set-uuid_get_example =
    uuid_set-uuid_get some_uuid [] (replicate 32 0) (length-replicate {A = ℕ} 32 200)
      (some_uuid-IsByte 32) refl (length-replicate {A = ℕ} 32 0)
