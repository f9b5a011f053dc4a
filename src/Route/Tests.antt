-- ===== src/Route/Tests.antt =====
-- Policies and a message, and the theorems at them.
use cube.Prelude.{ℕ, ◌<◌, ◌≡◌, refl, false, ◌&&◌, none, some, [], ◌∷◌, pos, negsuc, codes, arith}
use cube.Strings.{strncmp}
use cube.Route.{
  MatchRule, MsgHead, Message, RoutePath, of_bool, route_match_message, router_find_route_policy,
  router_find_policy_byname, same_int,
}
use cube.Route.Meaning.{verdict, IsSound}
use cube.Route.Verdict.{route_fits, route_match_message-verdict}
use cube.Route.Search.{
  Search, Named, router_find_route_policy-Search, router_find_policy_byname-Named,
}
use cube.Route.NodeList.{NodeList}

abbrev some_head : MsgHead
some_head = record {
  route = [];
  sender_uuid = codes "login";
  record_type = 513;
  record_subtype = 2;
  rjump = pos 1;
  ljump = pos 1;
}

abbrev some_message : Message
some_message = record {
  head = some some_head;
  read_status = pos 0;
  first_record = 0;
  define_expand = λ _ _. none;
  part_compare = λ _ _ _. pos 1;
}

abbrev head_rule : ℕ → ℕ → MatchRule
head_rule op subtype = record {
  op = op;
  area = 2;
  rule_type = 513;
  rule_subtype = subtype;
  match_template = 0;
  value = 0;
}

abbrev login_path : ℕ → RoutePath
login_path state = record {
  name = codes "login_policy";
  sender = codes "login";
  path_ljump = pos 0;
  path_rjump = pos 1;
  state = state;
  match_list = head_rule 1 2 ∷ head_rule 3 2 ∷ [];
}

abbrev any_path : RoutePath
any_path = record (login_path 1) { match_list = head_rule 1 0 ∷ [] }

head_rule-IsSound : (op : ℕ) → 0 < op → op < 5 → IsSound some_message some_head (head_rule op 2)
head_rule-IsSound op h l = record {
  known = h;
  four = l;
  readable = (0, refl);
  stores = λ _ _ _ _. refl;
}

-- The closed policy and the one with a rule that refuses are passed over.
find-any :
    router_find_route_policy (login_path 2 ∷ login_path 1 ∷ any_path ∷ []) some_message
    ≡ (pos 1, some any_path)
unfolding router_find_route_policy same_int strncmp
find-any = refl

route_match_message-verdict_example :
    route_match_message (login_path 1) some_message
    ≡ of_bool (
        route_fits (login_path 1) some_head
        && verdict some_message some_head (login_path 1).match_list false)
route_match_message-verdict_example =
    route_match_message-verdict (login_path 1) some_message some_head refl (
      head_rule-IsSound 1 (omega arith) (omega arith),
      (head_rule-IsSound 3 (omega arith) (omega arith), tt),
    )

router_find_route_policy-Search_example :
    Search some_message some_head
      (login_path 2 ∷ any_path ∷ [])
      (router_find_route_policy (login_path 2 ∷ any_path ∷ []) some_message)
router_find_route_policy-Search_example =
    router_find_route_policy-Search (login_path 2 ∷ any_path ∷ []) some_message some_head refl

router_find_policy_byname-Named_example :
    Named
      (codes "login_policy")
      (negsuc 0)
      (pos 0)
      (any_path ∷ [])
      (router_find_policy_byname (any_path ∷ []) (codes "login_policy") (negsuc 0) (pos 0))
router_find_policy_byname-Named_example =
    router_find_policy_byname-Named (any_path ∷ []) (codes "login_policy") (negsuc 0) (pos 0)

abbrev two_records : NodeList
two_records = record { records = 40 ∷ 50 ∷ []; policy_num = 2; curr = none }
