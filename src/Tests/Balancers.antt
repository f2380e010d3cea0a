-- ===== src/Tests/Balancers.antt =====
-- A frontend rule whose matcher drifted.
use upcloud_operator.Prelude.{
  ◌≡◌, refl, true, Option, none, some, Result, ok, err, List, [], ◌∷◌, String, ◌<>◌, ◌==◌, eq_refl,
}
use upcloud_operator.Errors.{Err}
use upcloud_operator.Kube.{policy_delete}
use upcloud_operator.Kube.Model.{library}
use upcloud_operator.Effects.{Call, World}
use upcloud_operator.Balancers.RuleTypes.{Rule, Frontend, RuleMatcher, RuleAction}
use upcloud_operator.Balancers.Upcloud
use upcloud_operator.Balancers.Upcloud.{
  RuleApi, RulePath, ReplaceRule, SdkNames, DeepEqual, IsDeepEqual, Matcher, Action,
}
use upcloud_operator.Balancers.RuleAdapter
use upcloud_operator.Balancers.RuleAdapter.Converges.{IsRuleStore, as_sent, observe-update_rule}
use upcloud_operator.Tests.Slot.{slot_get, slot_modify, slot_delete, missing}
use upcloud_operator.Tests.Fixtures.{meta_of}

-- The texts of the fields that the test sets, which are compared in place of the values.
abbrev address_text : Option Upcloud.MatcherValue → String
address_text none = ";"
address_text (some v) = v.value <> ";"

abbrev backend_text : Option String → String
backend_text none = ";"
backend_text (some v) = v <> ";"

unfoldable matchers_text : List Matcher → String
matchers_text [] = "."
matchers_text (m ∷ l) = m.type <> (":" <> (address_text m.src_ip <> matchers_text l))

unfoldable actions_text : List Action → String
actions_text [] = "."
actions_text (a ∷ l) = a.type <> (":" <> (backend_text a.use_backend <> actions_text l))

abbrev optional_text : {A : Type 0} → (A → String) → Option A → String
optional_text f none = "nil"
optional_text f (some a) = f a

abbrev deep_equal : DeepEqual
deep_equal = record {
  matchers_equal = λ a b. optional_text matchers_text a == optional_text matchers_text b;
  actions_equal = λ a b. optional_text actions_text a == optional_text actions_text b;
}

deep_equal-IsDeepEqual : IsDeepEqual deep_equal
deep_equal-IsDeepEqual = record {
  matchers_refl = λ l. eq_refl (optional_text matchers_text l);
  actions_refl = λ l. eq_refl (optional_text actions_text l);
}

abbrev sdk_names : SdkNames
sdk_names = record { condition_and = "and"; scheme_http = "http"; scheme_https = "https" }

abbrev matcher : RuleMatcher
matcher = record {
  type = "src_ip";
  inverse = none;
  src_ip = some (record { value = "10.0.0.0/8" });
  src_port = none;
  body_size = none;
  path = none;
  url = none;
  url_query = none;
  host = none;
  http_method = none;
  http_status = none;
  cookie = none;
  header = none;
  request_header = none;
  response_header = none;
  url_param = none;
  num_members_up = none;
}

abbrev action : RuleAction
action = record {
  type = "use_backend";
  use_backend = some (record { backend = "web" });
  http_return = none;
  http_redirect = none;
  http_rewrite_path = none;
  http_rewrite_uri = none;
  set_request_header = none;
  set_response_header = none;
}

abbrev rule : Rule
rule = record {
  meta = meta_of "internal" none;
  spec = record {
    frontend_ref = "https";
    name = "internal-only";
    priority = 10;
    matching_condition = "";
    matchers = matcher ∷ [];
    actions = action ∷ [];
    deletion_policy = policy_delete;
  };
  status = record {
    conditions = [];
    service_uuid = "lb-0001";
    frontend_name = "https";
    name = "internal-only";
  };
}

abbrev old_rule : Upcloud.Rule
old_rule = record {
  name = "internal-only";
  priority = 5;
  matching_condition = "or";
  matchers = none;
  actions = none;
}

unfoldable change : ReplaceRule → Upcloud.Rule → Upcloud.Rule
change q r = as_sent q.rule

abbrev rule_api : RuleApi (Option Upcloud.Rule)
rule_api = record {
  create_rule = λ r c. (ok (as_sent r.rule), some (as_sent r.rule));
  get_rule = slot_get;
  replace_rule = slot_modify change;
  delete_rule = slot_delete;
}

found_rule :
    (c : Option Upcloud.Rule) (n : RulePath) (r : Upcloud.Rule)
    → c ≡ some r
    → (slot_get {I = RulePath} {R = Upcloud.Rule} n c).0 ≡ ok r
unfolding slot_get
found_rule none n r held = cc
found_rule (some e) n r held = cc

changed_rule :
    (c : Option Upcloud.Rule) (q : ReplaceRule) (r : Upcloud.Rule)
    → (slot_modify change q c).0 ≡ ok r
    → (slot_modify change q c).1 ≡ some (as_sent q.rule)
unfolding slot_modify change
changed_rule none q r answer = cc
changed_rule (some e) q r answer = refl

rule_store : IsRuleStore rule_api
rule_store = record {
  held = λ c n. c;
  get-found = found_rule;
  replace-applies = λ c q r same answer. changed_rule c q r answer;
}

abbrev rule_call : Call Rule (World (Option Upcloud.Rule) (Unit {0}))
rule_call = record { obj = rule; world = record { cloud = some old_rule; cluster = tt } }

abbrev read_frontend : Unit {0} → String → String → Result Err Frontend
read_frontend k namespace name = err missing

observe-update_rule_example :
    (RuleAdapter.observe library sdk_names deep_equal rule_api read_frontend
      (RuleAdapter.update library sdk_names deep_equal rule_api read_frontend rule_call).1).0
    ≡ ok (record {
      exists = true;
      up_to_date = true;
      ready = true;
      message = "frontend rule internal-only";
    })
unfolding RuleAdapter.update slot_get slot_modify RuleAdapter.parent
    upcloud_operator.Effects.missing_as_none upcloud_operator.Balancers.RuleTypes.external_name
observe-update_rule_example =
    observe-update_rule library sdk_names deep_equal rule_api read_frontend deep_equal-IsDeepEqual
      rule_store rule_call refl refl refl
