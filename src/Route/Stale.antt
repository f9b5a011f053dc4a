-- ===== src/Route/Stale.antt =====
-- Rules of cubelib/dispatch/route_tree.c on the head with another subtype than the message has.
use cube.Prelude.{ℕ, ◌+◌, ◌≡◌, ◌≢◌, refl, ◌∙◌, true, false, List, ◌∷◌, ℤ, pos, ◌==◌, arith}
use cube.Route.{
  MatchRule, MsgHead, Message, dispatch_match_and, match_area_head, same_int, head_result,
  rule_result, go_on, op_step, match_loop,
}
use cube.Route.Meaning.{holds}

op_step-and :
    (op : ℕ) (prev : ℤ) → op ≡ dispatch_match_and → op_step op (pos 1) prev ≡ go_on (pos 1)
unfolding op_step same_int
op_step-and op prev e = rw e refl

passes-and :
    (msg : Message) (head : MsgHead) (rule : MatchRule) (rules : List MatchRule) (result prev : ℤ)
    (n : ℕ)
    → rule.op ≡ dispatch_match_and
    → rule_result msg head rule result ≡ pos 1
    → match_loop msg head (rule ∷ rules) result prev n
      ≡ match_loop msg head rules (pos 1) (pos 1) (n + 1)
unfolding match_loop
passes-and msg head rule rules result prev n o h =
    rw (h, match_loop, op_step-and rule.op prev o) refl

-- Behind an AND rule that holds, an AND rule on the head that has the type of the message and
-- neither its subtype nor none is passed as if it held as well.
match_loop-stale :
    (msg : Message) (head : MsgHead) (first rule : MatchRule) (rules : List MatchRule)
    (result prev : ℤ) (n : ℕ)
    → first.op ≡ dispatch_match_and
    → rule_result msg head first result ≡ pos 1
    → rule.op ≡ dispatch_match_and
    → rule.area ≡ match_area_head
    → rule.rule_type ≡ head.record_type
    → rule.rule_type ≢ 0
    → rule.rule_subtype ≢ 0
    → rule.rule_subtype ≢ head.record_subtype
    → (holds msg head rule ≡ false)
      × (match_loop msg head (first ∷ rule ∷ rules) result prev n
          ≡ match_loop msg head rules (pos 1) (pos 1) (n + 1 + 1))
unfolding rule_result head_result holds
match_loop-stale msg head first rule rules result prev n o h o' a t nt ns other =
    let some_type : (rule.rule_type == 0) ≡ false = ground arith in
    let this_type : (rule.rule_type == head.record_type) ≡ true = ground arith in
    let some_subtype : (rule.rule_subtype == 0) ≡ false = ground arith in
    let other_subtype : (rule.rule_subtype == head.record_subtype) ≡ false = ground arith in
    (
      rw (a, some_type, this_type, some_subtype, other_subtype) refl,
      passes-and msg head first (rule ∷ rules) result prev n o h
          ∙ passes-and msg head rule rules (pos 1) (pos 1) (n + 1) o'
              (rw (a, some_type, this_type, some_subtype, other_subtype) refl),
    )
