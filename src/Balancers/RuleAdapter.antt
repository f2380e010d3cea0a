-- ===== src/Balancers/RuleAdapter.antt =====
-- internal/controller/loadbalancer/loadbalancerfrontendrule_adapter.go
pub mod Converges
use upcloud_operator.Prelude.{
  String, ◌<>◌, Bool, true, not, ◌&&◌, ◌||◌, Option, none, some, ◌==◌, nat_eq, if◌then◌else◌,
  Result, ok, err,
}
use upcloud_operator.Errors.{Err, sentinel, pending, dependency_not_ready, wrap, api_not_found}
use upcloud_operator.Kube.{Library}
use upcloud_operator.Effects.{
  World, Method, pure, fail_with, ◌>>=◌, ◌>>◌, get_obj, set_obj, wrapping, cloud_call,
}
use upcloud_operator.Reconciler.{Observation, absent, Adapter}
use upcloud_operator.Reconciler.Conditions.{is_ready}
use upcloud_operator.Resolve.{quoted}
use upcloud_operator.Storage.Calls.{or_missing, or_adopted, removed}
use upcloud_operator.Balancers.RuleTypes.{Rule, Frontend, frontend_object, external_name}
use upcloud_operator.Balancers.Upcloud
use upcloud_operator.Balancers.Upcloud.{
  RuleApi, RulePath, RuleRequest, ReplaceRule, SdkNames, DeepEqual,
}
use upcloud_operator.Balancers.RuleConvert.{to_rule}

abbrev pub frontend_not_ready : Rule → Err
frontend_not_ready r =
    wrap ("frontend " <> (quoted r.spec.frontend_ref <> " not ready"))
      (sentinel dependency_not_ready)

-- The rule that Observe and Update address.
unfoldable pub path_of : Rule → RulePath
path_of r = record {
  service_uuid = r.status.service_uuid;
  frontend_name = r.status.frontend_name;
  name = external_name r;
}

abbrev pub with_name : Rule → String → Rule
with_name r name = record r { status = record (r.status) { name = name } }

abbrev pub with_parent : Rule → Frontend → Rule
with_parent r f = record r {
  status = record (r.status) {
    service_uuid = f.status.service_uuid;
    frontend_name = f.status.name;
  };
}

-- ruleUpToDate
unfoldable pub rule_up_to_date : DeepEqual → Upcloud.Rule → RuleRequest → Bool
rule_up_to_date D observed desired =
    observed.name == desired.name
    && (nat_eq observed.priority desired.priority
        && (observed.matching_condition == desired.matching_condition
            && (D.matchers_equal observed.matchers (some desired.matchers)
                && D.actions_equal observed.actions (some desired.actions))))

-- The request of Update.
unfoldable pub replace_request : SdkNames → Rule → ReplaceRule
unfolding path_of to_rule
replace_request names r = record { path = path_of r; rule = to_rule names r }

module _ {C K : Type 0} (L : Library) (names : SdkNames) (D : DeepEqual) (api : RuleApi C)
    (read_frontend : K → String → String → Result Err Frontend) where
  unfoldable pub parent_of : Result Err Frontend → Method Rule (World C K) (Unit {0})
  parent_of (err e) = do
    r ← get_obj
    fail_with (if api_not_found e then frontend_not_ready r else wrap "get frontend" e)
  parent_of (ok f) = do
    r ← get_obj
    (if not (is_ready L frontend_object f) || (f.status.service_uuid == "" || f.status.name == "")
        then fail_with (frontend_not_ready r)
        else set_obj (with_parent r f))

  unfoldable pub parent : Method Rule (World C K) (Unit {0})
  unfolding parent_of
  parent s =
      let r = s.obj in
      if not (r.status.service_uuid == "") && not (r.status.frontend_name == "")
      then (ok tt, s)
      else parent_of (read_frontend s.world.cluster r.meta.namespace r.spec.frontend_ref) s

  pub observe_found : Option Upcloud.Rule → Method Rule (World C K) Observation
  unfolding rule_up_to_date to_rule
  observe_found none = pure absent
  observe_found (some found) = do
    r ← get_obj
    set_obj (with_name r found.name)
    pure (record {
      exists = true;
      up_to_date = rule_up_to_date D found (to_rule names r);
      ready = true;
      message = "frontend rule " <> found.name;
    })

  unfoldable pub observe : Method Rule (World C K) Observation
  unfolding observe_found
  observe = do
    parent
    r ← get_obj
    found ←
        wrapping "get load balancer frontend rule"
          (cloud_call (or_missing (api.get_rule (path_of r))))
    observe_found found

  -- What Create does with the answer: a conflict is an adoption.
  pub created : Option Upcloud.Rule → Method Rule (World C K) (Unit {0})
  created none = pure tt
  created (some made) = do r ← get_obj; set_obj (with_name r made.name)

  unfoldable pub create : Method Rule (World C K) (Unit {0})
  unfolding created
  create = do
    parent
    r ← get_obj
    answer ← wrapping "create load balancer frontend rule" (
        cloud_call (
          or_adopted (
            api.create_rule (record {
              service_uuid = r.status.service_uuid;
              frontend_name = r.status.frontend_name;
              rule = to_rule names r;
            }))))
    created answer

  pub update_found : Option Upcloud.Rule → Method Rule (World C K) (Unit {0})
  unfolding replace_request
  update_found none = fail_with (sentinel pending)
  update_found (some old) = do
    r ← get_obj
    wrapping "replace load balancer frontend rule"
        (cloud_call (api.replace_rule (replace_request names r)))
    pure tt

  unfoldable pub update : Method Rule (World C K) (Unit {0})
  unfolding update_found
  update = do
    parent
    r ← get_obj
    found ←
        wrapping "get load balancer frontend rule"
          (cloud_call (or_missing (api.get_rule (path_of r))))
    update_found found

  unfoldable pub delete : Method Rule (World C K) (Unit {0})
  delete s =
      let t = s.obj.status in
      if t.service_uuid == "" || (t.frontend_name == "" || t.name == "")
      then (ok tt, s)
      else let (r, s') =
          cloud_call
            (api.delete_rule (record {
              service_uuid = t.service_uuid;
              frontend_name = t.frontend_name;
              name = t.name;
            }))
            s in
        (removed "delete load balancer frontend rule" (ok tt) r, s')

  abbrev pub rule_adapter : Adapter Rule (World C K)
  rule_adapter = record { observe = observe; create = create; update = update; delete = delete }
