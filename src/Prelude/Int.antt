-- ===== src/Prelude/Int.antt =====
-- `int` values and status codes as signed integers over the native numbers.
use Prim.Native.Nat.{ℕ}
use mathlib.Core.Bool.{Bool, false}
use cube.Prelude.Tests.{◌==◌}

-- `negsuc n` is -(n + 1).
pub data ℤ : Type 0 where
  pos : ℕ → ℤ
  negsuc : ℕ → ℤ

-- `-EINVAL` and `-ENOSPC` of errno.h.
abbrev pub einval : ℤ
einval = negsuc 21

abbrev pub enospc : ℤ
enospc = negsuc 27

-- Whether an `int` is 0.
abbrev pub is_zero : ℤ → Bool
is_zero (pos d) = d == 0
is_zero (negsuc _) = false

-- `DIGEST_SIZE` of data_type.h.
abbrev pub digest_size : ℕ
digest_size = 32
