-- ===== src/Prelude/Tables.antt =====
-- A fact about every number below a bound, by evaluation, and the characters of a text literal.
use Prim.Native.Nat.{ℕ, zero, suc, ◌<◌}
use Prim.Native.Char.{code}
use Prim.Native.String.{String}
use mathlib.Core.Path.{◌≡◌}
use mathlib.Core.Bool.{Bool, true, false}
use mathlib.Core.List.{List, [], ◌∷◌}
use native.Mathlib.Omega.{arith}

module _ (test : ℕ → Bool) where
  -- Whether the test passes for each number under the bound, tried from the top down.
  unfoldable pub passes_under : ℕ → Bool
  passes_under zero = true
  passes_under (suc bound) = elim (test bound) [ true ↦ passes_under bound | false ↦ false ]

  pub passes_under-lt :
      (bound : ℕ) → passes_under bound ≡ true → (x : ℕ) → x < bound → test x ≡ true
  unfolding passes_under
  passes_under-lt zero table x h = absurd (omega arith)
  passes_under-lt (suc bound) table x h =
      ground (arith, λ (t : passes_under bound ≡ true). passes_under-lt bound t x)

abbrev pub codes : String → List ℕ
codes String.[] = []
codes (String.◌∷◌ c s) = code c ∷ codes s
