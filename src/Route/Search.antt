-- ===== src/Route/Search.antt =====
-- The policy that is found for a message, and the one that is found by its name.
use cube.Prelude.{
  ℕ, ◌≡◌, ◌≢◌, refl, ap, subst, sym, ◌∙◌, Bool, true, false, not, ◌&&◌, ◌||◌, Bool-cases, ◌⊎◌, ◌↔◌,
  zero, suc, ◌+◌, take, digest_size, inl, inr, Option, none, some, List, [], ◌∷◌, ℤ, pos, negsuc,
  ◌==◌, arith, if◌then◌else◌,
}
use cube.Strings.Copy.{text}
use cube.Route.Same.{and_iff, or_iff, not_iff, ==_iff, same_int_iff, same_text_iff}
use cube.Route.{
  MsgHead, Message, RoutePath, policy_close, policy_ignore, route_match_message, route_match_sender,
  route_match_message_jump, find_route, find_with, router_find_route_policy, is_named, same_int,
  negate, router_find_policy_byname,
}

-- The first 32 bytes have the same text.
abbrev pub SameText : List ℕ → List ℕ → Type 0
SameText s₁ s₂ = text (take digest_size s₁) ≡ text (take digest_size s₂)

-- The policy is neither closed nor ignored, the sender of the message is its sender, and each jump of
-- the policy is 0 or that of the message.
abbrev pub Admits : MsgHead → RoutePath → Type 0
Admits head policy =
    ¬ ((policy.state ≡ policy_close) ⊎ (policy.state ≡ policy_ignore))
    × (SameText policy.sender head.sender_uuid
        × (((policy.path_rjump ≡ pos 0) ⊎ (policy.path_rjump ≡ head.rjump))
            × ((policy.path_ljump ≡ pos 0) ⊎ (policy.path_ljump ≡ head.ljump))))

-- A policy that is passed over: it does not admit the message, or its rules do not.
pub data Passes (msg : Message) (head : MsgHead) (policy : RoutePath) : Type 0 where
  not_admitted : ¬ (Admits head policy) → Passes msg head policy
  no_match : Admits head policy → route_match_message policy msg ≡ pos 0 → Passes msg head policy

-- What a search of the policies in their order gives: the first that admits and matches the message,
-- the error of the first whose matching fails, or none.
pub data Search (msg : Message) (head : MsgHead)
    : List RoutePath → ℤ × Option RoutePath → Type 0 where
  absent : Search msg head [] (pos 0, none)
  found :
      {policy : RoutePath} {policies : List RoutePath} {r : ℕ}
      → Admits head policy
      → route_match_message policy msg ≡ pos r
      → r ≢ 0
      → Search msg head (policy ∷ policies) (pos r, some policy)
  broken :
      {policy : RoutePath} {policies : List RoutePath} {e : ℕ}
      → Admits head policy
      → route_match_message policy msg ≡ negsuc e
      → Search msg head (policy ∷ policies) (negsuc e, none)
  passed :
      {policy : RoutePath} {policies : List RoutePath} {result : ℤ × Option RoutePath}
      → Passes msg head policy
      → Search msg head policies result
      → Search msg head (policy ∷ policies) result

-- The tests of the code on a policy.
Admits-iff :
    (policy : RoutePath) (head : MsgHead)
    → Admits head policy ↔ (
        (not ((policy.state == policy_close) || (policy.state == policy_ignore))
          && (route_match_sender policy head.sender_uuid && route_match_message_jump policy head))
        ≡ true)
unfolding route_match_sender route_match_message_jump
Admits-iff policy head =
    and_iff
      (not_iff (or_iff (==_iff policy.state policy_close) (==_iff policy.state policy_ignore)))
      (and_iff (same_text_iff policy.sender head.sender_uuid) (
        and_iff
          (or_iff (same_int_iff policy.path_rjump (pos 0))
            (same_int_iff policy.path_rjump head.rjump))
          (or_iff (same_int_iff policy.path_ljump (pos 0))
            (same_int_iff policy.path_ljump head.ljump))))

find_route-Search :
    (policies : List RoutePath) (msg : Message) (head : MsgHead)
    → Search msg head policies (find_route policies msg head)
unfolding find_route
find_route-Search [] msg head = absent
find_route-Search (policy ∷ policies) msg head =
    at_policy (find_route-Search policies msg head)
      ((policy.state == policy_close) || (policy.state == policy_ignore))
      (route_match_sender policy head.sender_uuid) (route_match_message_jump policy head)
      (Admits-iff policy head) (route_match_message policy msg) refl
  where
    at_policy :
        {rest : ℤ × Option RoutePath}
        → Search msg head policies rest
        → (closed sent jump : Bool) → Admits head policy ↔ ((not closed && (sent && jump)) ≡ true)
        → (status : ℤ) → route_match_message policy msg ≡ status
        → Search msg head (policy ∷ policies) (
            if closed
            then rest
            else if not sent
            then rest
            else if not jump
            then rest
            else elim status [
              | negsuc e ↦ (negsuc e, none)
              | pos r ↦ if r == 0 then rest else (pos r, some policy)
            ])
    at_policy s true sent jump a status m = passed (not_admitted (λ x. absurd (cc (a.0 x)))) s
    at_policy s false false jump a status m = passed (not_admitted (λ x. absurd (cc (a.0 x)))) s
    at_policy s false true false a status m = passed (not_admitted (λ x. absurd (cc (a.0 x)))) s
    at_policy s false true true a (negsuc e) m = broken (a.1 refl) m
    at_policy {rest = rest} s false true true a (pos r) m = elim (Bool-cases (r == 0)) [
      | inl z ↦ rw z (passed (no_match (a.1 refl) (m ∙ ap pos (ground arith))) s)
      | inr z ↦ rw z (found (a.1 refl) m (ground arith))
    ]

-- `router_find_route_policy` of a message with a head searches the policies in their order: closed
-- and ignored ones, those whose sender has other text in its first 32 bytes than that of the message,
-- those with a jump that is neither 0 nor that of the message and those whose rules do not match are
-- passed, the first that matches is the result, and an error of the rules ends the search.
pub router_find_route_policy-Search :
    (policies : List RoutePath) (msg : Message) (head : MsgHead)
    → msg.head ≡ some head
    → Search msg head policies (router_find_route_policy policies msg)
unfolding router_find_route_policy find_with
router_find_route_policy-Search policies msg head e =
    subst (λ h. Search msg head policies (find_with policies msg h)) (sym e)
      (find_route-Search policies msg head)

-- One number is the other with its sign changed.
abbrev pub Opposite : ℤ → ℤ → Type 0
Opposite (pos a) (pos b) = a + b ≡ 0
Opposite (pos a) (negsuc b) = a ≡ suc b
Opposite (negsuc a) (pos b) = suc a ≡ b
Opposite (negsuc a) (negsuc b) = ⊥

-- The policy has the name in its first 32 bytes; its rjump is 0, the one that is asked for or the
-- opposite of it; and the ljump that is asked for is 0, or that of the policy is 0 or the same.
abbrev pub IsNamed : List ℕ → ℤ → ℤ → RoutePath → Type 0
IsNamed name rjump ljump policy =
    (SameText name policy.name
      × ((policy.path_rjump ≡ pos 0)
          ⊎ ((policy.path_rjump ≡ rjump) ⊎ Opposite policy.path_rjump rjump)))
    × ((ljump ≡ pos 0) ⊎ ((policy.path_ljump ≡ pos 0) ⊎ (policy.path_ljump ≡ ljump)))

-- The first policy of the name and the jumps.
pub data Named (name : List ℕ) (rjump ljump : ℤ) : List RoutePath → Option RoutePath → Type 0 where
  no_policy : Named name rjump ljump [] none
  this_policy :
      {policy : RoutePath} {policies : List RoutePath}
      → IsNamed name rjump ljump policy
      → Named name rjump ljump (policy ∷ policies) (some policy)
  other_policy :
      {policy : RoutePath} {policies : List RoutePath} {result : Option RoutePath}
      → ¬ (IsNamed name rjump ljump policy)
      → Named name rjump ljump policies result
      → Named name rjump ljump (policy ∷ policies) result

Opposite-iff : (a b : ℤ) → Opposite a b ↔ (same_int a (negate b) ≡ true)
unfolding same_int negate
Opposite-iff (pos a) (pos zero) = ground arith
Opposite-iff (pos a) (pos (suc b)) = ground arith
Opposite-iff (pos a) (negsuc b) = ground arith
Opposite-iff (negsuc a) (pos zero) = ground arith
Opposite-iff (negsuc a) (pos (suc b)) = ground arith
Opposite-iff (negsuc a) (negsuc b) = ground arith

is_named_iff :
    (name : List ℕ) (rjump ljump : ℤ) (policy : RoutePath)
    → IsNamed name rjump ljump policy ↔ (is_named name rjump ljump policy ≡ true)
unfolding is_named
is_named_iff name rjump ljump policy =
    and_iff
      (and_iff (same_text_iff name policy.name) (
        or_iff (same_int_iff policy.path_rjump (pos 0))
          (or_iff (same_int_iff policy.path_rjump rjump) (Opposite-iff policy.path_rjump rjump))))
      (or_iff (same_int_iff ljump (pos 0))
        (or_iff (same_int_iff policy.path_ljump (pos 0)) (same_int_iff policy.path_ljump ljump)))

-- `router_find_policy_byname` gives the first policy that has the name in its first 32 bytes, an rjump
-- that is 0, the one asked for or its opposite, and, where an ljump other than 0 is asked for, this
-- ljump or 0; and NULL where there is none.
pub router_find_policy_byname-Named :
    (policies : List RoutePath) (name : List ℕ) (rjump ljump : ℤ)
    → Named name rjump ljump policies (router_find_policy_byname policies name rjump ljump)
unfolding router_find_policy_byname
router_find_policy_byname-Named [] name rjump ljump = no_policy
router_find_policy_byname-Named (policy ∷ policies) name rjump ljump =
    let iff = is_named_iff name rjump ljump policy in
    elim (Bool-cases (is_named name rjump ljump policy)) [
      | inl t ↦ rw t (this_policy (iff.1 t))
      | inr f ↦ rw f (
          other_policy (λ x. absurd (cc (iff.0 x)))
            (router_find_policy_byname-Named policies name rjump ljump))
    ]
