-- ===== src/Route/Same.antt =====
-- What the tests of cubelib/dispatch/route_tree.c on states, numbers and names mean.
use cube.Prelude.{
  ℕ, ◌≡◌, refl, Bool, true, false, not, ◌&&◌, ◌||◌, ◌⊎◌, ◌↔◌, inl, inr, List, ℤ, pos, negsuc,
  is_zero, ◌==◌, arith, take, digest_size,
}
use cube.Strings.{strncmp}
use cube.Strings.Copy.{text}
use cube.Strings.Compare.{strncmp_zero}
use cube.Route.{same_int}

pub and_iff :
    {P Q : Type 0} {a b : Bool} → P ↔ (a ≡ true) → Q ↔ (b ≡ true) → (P × Q) ↔ ((a && b) ≡ true)
and_iff {a = true} p q = (λ x. q.0 x.1, λ e. (p.1 refl, q.1 e))
and_iff {a = false} p q = (λ x. p.0 x.0, λ e. absurd (cc e))

pub or_iff :
    {P Q : Type 0} {a b : Bool} → P ↔ (a ≡ true) → Q ↔ (b ≡ true) → (P ⊎ Q) ↔ ((a || b) ≡ true)
or_iff {a = true} p q = (λ x. refl, λ e. inl (p.1 refl))
or_iff {P} {Q} {a = false} {b = b} p q = (either, λ e. inr (q.1 e))
  where
    either : P ⊎ Q → b ≡ true
    either (inl x) = absurd (cc (p.0 x))
    either (inr x) = q.0 x

pub not_iff : {P : Type 0} {a : Bool} → P ↔ (a ≡ true) → (¬ P) ↔ (not a ≡ true)
not_iff {a = true} p = (λ x. absurd (x (p.1 refl)), λ e. absurd (cc e))
not_iff {a = false} p = (λ x. refl, λ e x. absurd (cc (p.0 x)))

pub ==_iff : (a b : ℕ) → (a ≡ b) ↔ ((a == b) ≡ true)
==_iff a b = ground arith

pub same_int_iff : (a b : ℤ) → (a ≡ b) ↔ (same_int a b ≡ true)
unfolding same_int
same_int_iff (pos a) (pos b) = ground arith
same_int_iff (pos a) (negsuc b) = ground arith
same_int_iff (negsuc a) (pos b) = ground arith
same_int_iff (negsuc a) (negsuc b) = ground arith

is_zero_iff : (d : ℤ) → (d ≡ pos 0) ↔ (is_zero d ≡ true)
is_zero_iff (pos d) = ground arith
is_zero_iff (negsuc d) = ground arith

-- `Strncmp` of at most 32 characters.
pub same_text_iff :
    (s₁ s₂ : List ℕ)
    → (text (take digest_size s₁) ≡ text (take digest_size s₂))
      ↔ (is_zero (strncmp s₁ s₂ digest_size) ≡ true)
same_text_iff s₁ s₂ =
    let iff = strncmp_zero s₁ s₂ digest_size in
    let zero_iff = is_zero_iff (strncmp s₁ s₂ digest_size) in
    (λ e. zero_iff.0 (iff.1 e), λ e. iff.0 (zero_iff.1 e))
