-- ===== src/Route/Verdict.antt =====
-- What the rules of a policy decide about a message.
use cube.Prelude.{
  ℕ, zero, suc, ◌+◌, ◌<◌, ◌≡◌, refl, ap, ◌∙◌, Bool, true, false, not, ◌&&◌, Bool-cases, inl, inr,
  some, List, [], ◌∷◌, ℤ, pos, negsuc, ◌==◌, is_zero, arith, get_or, digest_size, if◌then◌else◌,
}
use cube.Strings.{strncmp}
use cube.Route.{
  route_match_message, match_message, MatchRule, MsgHead, Message, RoutePath, dispatch_match_and,
  dispatch_match_or, dispatch_match_not, dispatch_match_ornot, same_int, of_bool, return_with,
  go_on, op_step, match_loop,
}
use cube.Route.Meaning.{holds, verdict, IsSound, rule_result-holds}

-- Every rule of a list is sound.
abbrev pub AllSound : Message → MsgHead → List MatchRule → Type 0
AllSound msg head [] = Unit
AllSound msg head (rule ∷ rules) = IsSound msg head rule × AllSound msg head rules

-- The step at a rule, from what the rules behind it give.
step-verdict :
    (msg : Message) (head : MsgHead) (rule : MatchRule) (rules : List MatchRule) (seen h : Bool)
    (n : ℕ)
    → 0 < rule.op
    → rule.op < 5
    → holds msg head rule ≡ h
    → ((r : ℕ) (seen : Bool)
        → match_loop msg head rules (pos r) (of_bool seen) (n + 1)
          ≡ of_bool (verdict msg head rules seen))
    → (elim (op_step rule.op (of_bool h) (of_bool seen)) [
      | return_with status ↦ status
      | go_on prev ↦ match_loop msg head rules (of_bool h) prev (n + 1)
    ])
      ≡ of_bool (verdict msg head (rule ∷ rules) seen)
unfolding op_step verdict same_int
step-verdict msg head rule rules seen true n known four e ih =
    elim (Bool-cases (rule.op == dispatch_match_and)) [
      | inl a ↦ rw (a, e) (ih 1 true)
      | inr a ↦ elim (Bool-cases (rule.op == dispatch_match_or)) [
        | inl o ↦ rw (a, o, e) refl
        | inr o ↦ elim (Bool-cases (rule.op == dispatch_match_not)) [
          | inl t ↦ rw (a, o, t, e) refl
          | inr t ↦
              let last : (rule.op == dispatch_match_ornot) ≡ true = ground arith in
              rw (a, o, t, last, e) (ih 1 seen)
        ]
      ]
    ]
step-verdict msg head rule rules seen false n known four e ih =
    elim (Bool-cases (rule.op == dispatch_match_and)) [
      | inl a ↦ rw (a, e) refl
      | inr a ↦ elim (Bool-cases (rule.op == dispatch_match_or)) [
        | inl o ↦ rw (a, o, e) (ih 0 seen)
        | inr o ↦ elim (Bool-cases (rule.op == dispatch_match_not)) [
          | inl t ↦ rw (a, o, t, e) (ih 0 true)
          | inr t ↦
              let last : (rule.op == dispatch_match_ornot) ≡ true = ground arith in
              rw (a, o, t, last, e) refl
        ]
      ]
    ]

-- A result that is not negative is seen by the `switch`.
switched :
    (msg : Message) (head : MsgHead) (rule : MatchRule) (rules : List MatchRule) (b : Bool)
    (prev : ℤ) (n : ℕ)
    → (elim (of_bool b) [
      | negsuc e ↦ negsuc e
      | pos r ↦ elim (op_step rule.op (pos r) prev) [
        | return_with status ↦ status
        | go_on prev' ↦ match_loop msg head rules (pos r) prev' (n + 1)
      ]
    ])
      ≡ (elim (op_step rule.op (of_bool b) prev) [
        | return_with status ↦ status
        | go_on prev' ↦ match_loop msg head rules (of_bool b) prev' (n + 1)
      ])
switched msg head rule rules true prev n = refl
switched msg head rule rules false prev n = refl

-- The loop over sound rules gives 1 or 0 as the operators decide, whatever the rules before it left.
pub match_loop-verdict :
    (msg : Message) (head : MsgHead) (rules : List MatchRule) (r n : ℕ) (seen : Bool)
    → AllSound msg head rules
    → (n ≡ 0 → seen ≡ false)
    → match_loop msg head rules (pos r) (of_bool seen) n ≡ of_bool (verdict msg head rules seen)
unfolding match_loop verdict
match_loop-verdict msg head [] r zero seen s h = rw (h refl) refl
match_loop-verdict msg head [] r (suc n) seen s h =
    let some_rules : (suc n == 0) ≡ false = ground arith in rw some_rules refl
match_loop-verdict msg head (rule ∷ rules) r n seen s h =
    rw (rule_result-holds msg head rule (pos r) s.0, match_loop)
      (switched msg head rule rules (holds msg head rule) (of_bool seen) n
        ∙ step-verdict msg head rule rules seen (holds msg head rule) n s.0.known s.0.four refl
            (λ r' seen'.
              match_loop-verdict msg head rules r' (n + 1) seen' s.1 (λ e. absurd (omega arith))))

-- Whether a message may go by a policy of this name.
abbrev pub route_fits : RoutePath → MsgHead → Bool
route_fits path head =
    if get_or head.route 0 0 == 0 then true else is_zero (strncmp path.name head.route digest_size)

-- `route_match_message` of a policy with sound rules is 1 if the message has no route or the name of
-- the policy for its route and the operators of the rules accept it from left to right, and 0
-- otherwise.
pub route_match_message-verdict :
    (path : RoutePath) (msg : Message) (head : MsgHead)
    → msg.head ≡ some head
    → AllSound msg head path.match_list
    → route_match_message path msg
      ≡ of_bool (route_fits path head && verdict msg head path.match_list false)
unfolding route_match_message match_message
route_match_message-verdict path msg head e s =
    ap (match_message path msg) e
    ∙ (by_route (get_or head.route 0 0 == 0) (is_zero (strncmp path.name head.route digest_size)))
  where
    by_route :
        (none_asked same : Bool)
        → (if (if none_asked then false else not same)
            then pos 0
            else match_loop msg head path.match_list (pos 0) (pos 0) 0)
          ≡ of_bool ((if none_asked then true else same) && verdict msg head path.match_list false)
    by_route true same = match_loop-verdict msg head path.match_list 0 0 false s (λ _. refl)
    by_route false true = match_loop-verdict msg head path.match_list 0 0 false s (λ _. refl)
    by_route false false = refl
