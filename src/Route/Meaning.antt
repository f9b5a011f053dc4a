-- ===== src/Route/Meaning.antt =====
-- What a match rule of cubelib/dispatch/route_tree.c means for a message.
use cube.Prelude.{
  ℕ, ◌<◌, ◌≡◌, ◌≢◌, refl, Bool, true, false, not, ◌&&◌, ◌||◌, Bool-cases, inl, inr, Option, none,
  some, List, [], ◌∷◌, ℤ, pos, ◌==◌, is_zero, arith, if◌then◌else◌,
}
use cube.Route.{
  MatchRule, MsgHead, Message, dispatch_match_and, dispatch_match_or, dispatch_match_not,
  match_area_head, match_area_record, match_area_expand, of_bool, head_result, record_result,
  expand_result, rule_result,
}

-- Whether a rule holds for a message.
unfoldable pub holds : Message → MsgHead → MatchRule → Bool
holds msg head rule =
    if (rule.area == 0) || (rule.area == match_area_head)
    then (rule.rule_type == 0)
      || ((rule.rule_type == head.record_type)
          && ((rule.rule_subtype == 0) || (rule.rule_subtype == head.record_subtype)))
    else if rule.area == match_area_record
    then (rule.rule_type == 0)
      || (((rule.rule_type == head.record_type) && (rule.rule_subtype == head.record_subtype))
          && ((rule.match_template == 0)
              || (not (msg.first_record == 0)
                  && is_zero (msg.part_compare rule.value msg.first_record rule.match_template))))
    else if rule.area == match_area_expand
    then (elim (msg.define_expand rule.rule_type rule.rule_subtype) [
      | none ↦ false
      | some expand ↦
          (rule.value == 0)
          || (not (rule.match_template == 0)
              && is_zero (msg.part_compare rule.value expand rule.match_template))
    ])
    else false

-- The operators from left to right: `seen` is whether a rule of the kinds AND and NOT was there.
unfoldable pub verdict : Message → MsgHead → List MatchRule → Bool → Bool
unfolding holds
verdict msg head [] seen = seen
verdict msg head (rule ∷ rules) seen =
    let h = holds msg head rule in
    if rule.op == dispatch_match_and
    then h && verdict msg head rules true
    else if rule.op == dispatch_match_or
    then h || verdict msg head rules seen
    else if rule.op == dispatch_match_not
    then not h && verdict msg head rules true
    else not h || verdict msg head rules seen

-- The operator is one of the four, the record can be read, and a rule on the head that has the type
-- of the message has its subtype or none.
pub record IsSound (msg : Message) (head : MsgHead) (rule : MatchRule) : Type 0 where
  pub known : 0 < rule.op
  pub four : rule.op < 5
  pub readable : (status : ℕ) × (msg.read_status ≡ pos status)
  pub stores :
      ((rule.area == 0) || (rule.area == match_area_head)) ≡ true
      → rule.rule_type ≡ head.record_type
      → rule.rule_type ≢ 0
      → rule.rule_subtype ≢ 0
      → rule.rule_subtype ≡ head.record_subtype

head_result-holds :
    (head : MsgHead) (rule : MatchRule) (result : ℤ)
    → (rule.rule_type ≡ head.record_type
        → rule.rule_type ≢ 0
        → rule.rule_subtype ≢ 0
        → rule.rule_subtype ≡ head.record_subtype)
    → head_result head rule result
      ≡ of_bool (
          (rule.rule_type == 0)
          || ((rule.rule_type == head.record_type)
              && ((rule.rule_subtype == 0) || (rule.rule_subtype == head.record_subtype))))
unfolding head_result
head_result-holds head rule result h = ground arith

record_tests :
    (a b c d f g : Bool)
    → (if a
        then pos 1
        else if not b || not c
        then pos 0
        else if d
        then pos 1
        else if f
        then pos 0
        else of_bool g)
      ≡ of_bool (a || ((b && c) && (d || (not f && g))))
record_tests true b c d f g = refl
record_tests false false c d f g = refl
record_tests false true false d f g = refl
record_tests false true true true f g = refl
record_tests false true true false true g = refl
record_tests false true true false false g = refl

record_result-holds :
    (msg : Message) (head : MsgHead) (rule : MatchRule) (status : ℕ)
    → msg.read_status ≡ pos status
    → record_result msg head rule
      ≡ of_bool (
          (rule.rule_type == 0)
          || (((rule.rule_type == head.record_type) && (rule.rule_subtype == head.record_subtype))
              && ((rule.match_template == 0)
                  || (not (msg.first_record == 0)
                      && is_zero
                          (msg.part_compare rule.value msg.first_record rule.match_template)))))
unfolding record_result
record_result-holds msg head rule status e = rw e (
    record_tests (rule.rule_type == 0) (rule.rule_type == head.record_type)
      (rule.rule_subtype == head.record_subtype) (rule.match_template == 0) (msg.first_record == 0)
      (is_zero (msg.part_compare rule.value msg.first_record rule.match_template)))

expand_tests :
    (a b g : Bool)
    → (if a then pos 1 else if b then pos 0 else of_bool g) ≡ of_bool (a || (not b && g))
expand_tests true b g = refl
expand_tests false true g = refl
expand_tests false false g = refl

pub rule_result-holds :
    (msg : Message) (head : MsgHead) (rule : MatchRule) (result : ℤ)
    → IsSound msg head rule
    → rule_result msg head rule result ≡ of_bool (holds msg head rule)
unfolding rule_result holds expand_result
rule_result-holds msg head rule result s =
    elim (Bool-cases ((rule.area == 0) || (rule.area == match_area_head))) [
      | inl e ↦ rw e (head_result-holds head rule result (s.stores e))
      | inr e ↦ elim (Bool-cases (rule.area == match_area_record)) [
        | inl r ↦ rw (e, r) (record_result-holds msg head rule s.readable.0 s.readable.1)
        | inr r ↦ elim (Bool-cases (rule.area == match_area_expand)) [
          | inl x ↦ rw (e, r, x) (expanded (msg.define_expand rule.rule_type rule.rule_subtype))
          | inr x ↦ rw (e, r, x) refl
        ]
      ]
    ]
  where
    expanded :
        (found : Option ℕ)
        → (elim found [
          | none ↦ pos 0
          | some expand ↦
              if rule.value == 0
              then pos 1
              else if rule.match_template == 0
              then pos 0
              else of_bool (is_zero (msg.part_compare rule.value expand rule.match_template))
        ])
          ≡ of_bool (elim found [
            | none ↦ false
            | some expand ↦
                (rule.value == 0)
                || (not (rule.match_template == 0)
                    && is_zero (msg.part_compare rule.value expand rule.match_template))
          ])
    expanded none = refl
    expanded (some expand) =
        expand_tests (rule.value == 0) (rule.match_template == 0)
          (is_zero (msg.part_compare rule.value expand rule.match_template))
