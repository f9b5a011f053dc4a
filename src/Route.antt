-- ===== src/Route.antt =====
-- The choice of a routing policy for a message: cubelib/dispatch/route_tree.c.
pub mod Meaning
pub mod Verdict
pub mod Stale
pub mod Same
pub mod Search
pub mod NodeList
mod Tests
use cube.Prelude.{
  ℕ, zero, suc, ◌+◌, Bool, true, false, not, ◌&&◌, ◌||◌, Option, none, some, List, [], ◌∷◌, ℤ, pos,
  negsuc, einval, ◌==◌, is_zero, if◌then◌else◌, get_or, digest_size,
}
use cube.Strings.{strncmp}

-- The enumerations of dispatch.h.
abbrev pub dispatch_match_and : ℕ
dispatch_match_and = 1

abbrev pub dispatch_match_or : ℕ
dispatch_match_or = 2

abbrev pub dispatch_match_not : ℕ
dispatch_match_not = 3

abbrev pub dispatch_match_ornot : ℕ
dispatch_match_ornot = 4

abbrev pub match_area_head : ℕ
match_area_head = 2

abbrev pub match_area_record : ℕ
match_area_record = 4

abbrev pub match_area_expand : ℕ
match_area_expand = 8

abbrev pub policy_close : ℕ
policy_close = 2

abbrev pub policy_ignore : ℕ
policy_ignore = 5

-- `MATCH_RULE`, with the fields that matching reads. A pointer is a number, 0 is NULL.
pub record MatchRule : Type 0 where
  pub op : ℕ
  pub area : ℕ
  pub rule_type : ℕ
  pub rule_subtype : ℕ
  pub match_template : ℕ
  pub value : ℕ

-- The head of a message, as far as matching reads it.
pub record MsgHead : Type 0 where
  pub route : List ℕ
  pub sender_uuid : List ℕ
  pub record_type : ℕ
  pub record_subtype : ℕ
  pub rjump : ℤ
  pub ljump : ℤ

-- What a message answers: its head, if it has one, the status and the record that
-- `message_get_record` gives at 0, and the expansion that `message_get_define_expand` finds for a
-- type and a subtype. `part_compare` is `struct_part_compare` on a value, a record and a template.
pub record Message : Type 0 where
  pub head : Option MsgHead
  pub read_status : ℤ
  pub first_record : ℕ
  pub define_expand : ℕ → ℕ → Option ℕ
  pub part_compare : ℕ → ℕ → ℕ → ℤ

-- `ROUTE_PATH`, with the records of its list of match rules.
pub record RoutePath : Type 0 where
  pub name : List ℕ
  pub sender : List ℕ
  pub path_ljump : ℤ
  pub path_rjump : ℤ
  pub state : ℕ
  pub match_list : List MatchRule

unfoldable pub same_int : ℤ → ℤ → Bool
same_int (pos a) (pos b) = a == b
same_int (negsuc a) (negsuc b) = a == b
same_int (pos a) (negsuc b) = false
same_int (negsuc a) (pos b) = false

-- The value of a C comparison.
abbrev pub of_bool : Bool → ℤ
of_bool b = if b then pos 1 else pos 0

-- `result` behind the tests of a rule. Where none of the branches stores, it is as before.
unfoldable pub head_result : MsgHead → MatchRule → ℤ → ℤ
head_result head rule result =
    if rule.rule_type == 0
    then pos 1
    else if rule.rule_type == head.record_type
    then (if rule.rule_subtype == 0
        then pos 1
        else if rule.rule_subtype == head.record_subtype
        then pos 1
        else result)
    else pos 0

unfoldable pub record_result : Message → MsgHead → MatchRule → ℤ
record_result msg head rule =
    if rule.rule_type == 0
    then pos 1
    else if not (rule.rule_type == head.record_type)
        || not (rule.rule_subtype == head.record_subtype)
    then pos 0
    else if rule.match_template == 0
    then pos 1
    else elim msg.read_status [
      | negsuc e ↦ negsuc e
      | pos _ ↦
          if msg.first_record == 0
          then pos 0
          else of_bool (is_zero (msg.part_compare rule.value msg.first_record rule.match_template))
    ]

unfoldable pub expand_result : Message → MatchRule → ℤ
expand_result msg rule = elim (msg.define_expand rule.rule_type rule.rule_subtype) [
  | none ↦ pos 0
  | some expand ↦
      if rule.value == 0
      then pos 1
      else if rule.match_template == 0
      then pos 0
      else of_bool (is_zero (msg.part_compare rule.value expand rule.match_template))
]

unfoldable pub rule_result : Message → MsgHead → MatchRule → ℤ → ℤ
unfolding head_result record_result expand_result
rule_result msg head rule result =
    if (rule.area == 0) || (rule.area == match_area_head)
    then head_result head rule result
    else if rule.area == match_area_record
    then record_result msg head rule
    else if rule.area == match_area_expand
    then expand_result msg rule
    else pos 0

-- The `switch` on the operator: the call returns, or goes on with `prev_result`.
pub data OpStep : Type 0 where
  return_with : ℤ → OpStep
  go_on : ℤ → OpStep

unfoldable pub op_step : ℕ → ℤ → ℤ → OpStep
op_step op result prev_result =
    if op == dispatch_match_and
    then (if same_int result (pos 0) then return_with result else go_on (pos 1))
    else if op == dispatch_match_or
    then (if same_int result (pos 0) then go_on prev_result else return_with result)
    else if op == dispatch_match_not
    then (if same_int result (pos 0) then go_on (pos 1) else return_with (pos 0))
    else if op == dispatch_match_ornot
    then (if same_int result (pos 0) then return_with (pos 1) else go_on prev_result)
    else return_with einval

-- The loop over the rules, with `result`, `prev_result` and `match_rule_num`. A negative `result`
-- is returned in front of the `switch`.
unfoldable pub match_loop : Message → MsgHead → List MatchRule → ℤ → ℤ → ℕ → ℤ
unfolding rule_result op_step
match_loop msg head [] result prev_result match_rule_num =
    if match_rule_num == 0 then pos 0 else prev_result
match_loop msg head (rule ∷ rules) result prev_result match_rule_num =
    elim (rule_result msg head rule result) [
      | negsuc e ↦ negsuc e
      | pos r ↦ elim (op_step rule.op (pos r) prev_result) [
        | return_with status ↦ status
        | go_on prev ↦ match_loop msg head rules (pos r) prev (match_rule_num + 1)
      ]
    ]

-- `route_match_message`, on what `message_get_head` gives.
unfoldable pub match_message : RoutePath → Message → Option MsgHead → ℤ
unfolding match_loop
match_message path msg none = einval
match_message path msg (some head) =
    if (if get_or head.route 0 0 == 0
      then false
      else not (is_zero (strncmp path.name head.route digest_size)))
    then pos 0
    else match_loop msg head path.match_list (pos 0) (pos 0) 0

unfoldable pub route_match_message : RoutePath → Message → ℤ
unfolding match_message
route_match_message path msg = match_message path msg msg.head

-- `_route_match_rules`.
unfoldable pub match_rules : RoutePath → Message → Option MsgHead → ℤ
unfolding match_loop
match_rules path msg none = einval
match_rules path msg (some head) =
    if (if same_int path.path_rjump (pos 0)
      then false
      else not (same_int path.path_rjump head.rjump))
    then einval
    else match_loop msg head path.match_list (pos 0) (pos 0) 0

unfoldable pub route_match_rules : RoutePath → Message → ℤ
unfolding match_rules
route_match_rules path msg = match_rules path msg msg.head

-- `route_match_sender` and `route_match_message_jump`, as tests.
unfoldable pub route_match_sender : RoutePath → List ℕ → Bool
route_match_sender path sender = is_zero (strncmp path.sender sender digest_size)

unfoldable pub route_match_message_jump : RoutePath → MsgHead → Bool
unfolding same_int
route_match_message_jump path head =
    (same_int path.path_rjump (pos 0) || same_int path.path_rjump head.rjump)
    && (same_int path.path_ljump (pos 0) || same_int path.path_ljump head.ljump)

-- The loop of `router_find_route_policy` over the policies: the status and `*msg_policy`.
unfoldable pub find_route : List RoutePath → Message → MsgHead → ℤ × Option RoutePath
unfolding route_match_message route_match_sender route_match_message_jump
find_route [] msg head = (pos 0, none)
find_route (policy ∷ policies) msg head =
    let rest = find_route policies msg head in
    if (policy.state == policy_close) || (policy.state == policy_ignore)
    then rest
    else if not (route_match_sender policy head.sender_uuid)
    then rest
    else if not (route_match_message_jump policy head)
    then rest
    else elim (route_match_message policy msg) [
      | negsuc e ↦ (negsuc e, none)
      | pos r ↦ if r == 0 then rest else (pos r, some policy)
    ]

-- `router_find_route_policy`.
unfoldable pub find_with : List RoutePath → Message → Option MsgHead → ℤ × Option RoutePath
unfolding find_route
find_with policies msg none = (einval, none)
find_with policies msg (some head) = find_route policies msg head

unfoldable pub router_find_route_policy : List RoutePath → Message → ℤ × Option RoutePath
unfolding find_with
router_find_route_policy policies msg = find_with policies msg msg.head

unfoldable pub negate : ℤ → ℤ
negate (pos zero) = pos 0
negate (pos (suc n)) = negsuc n
negate (negsuc n) = pos (n + 1)

-- The test of `router_find_policy_byname` on a policy.
unfoldable pub is_named : List ℕ → ℤ → ℤ → RoutePath → Bool
unfolding same_int negate
is_named name rjump ljump policy =
    is_zero (strncmp name policy.name digest_size)
    && (same_int policy.path_rjump (pos 0)
        || (same_int policy.path_rjump rjump || same_int policy.path_rjump (negate rjump)))
    && (same_int ljump (pos 0)
        || (same_int policy.path_ljump (pos 0) || same_int policy.path_ljump ljump))

-- `router_find_policy_byname`: `*msg_policy`, with the status 0. Without a policy the status is not
-- set.
unfoldable pub router_find_policy_byname : List RoutePath → List ℕ → ℤ → ℤ → Option RoutePath
unfolding is_named
router_find_policy_byname [] name rjump ljump = none
router_find_policy_byname (policy ∷ policies) name rjump ljump =
    let rest = router_find_policy_byname policies name rjump ljump in
    if is_named name rjump ljump policy then some policy else rest
