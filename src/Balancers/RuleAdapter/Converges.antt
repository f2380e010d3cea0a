-- ===== src/Balancers/RuleAdapter/Converges.antt =====
-- What Update of a rule achieves.
use upcloud_operator.Prelude.{
  ℕ, String, ◌<>◌, ◌≡◌, refl, ◌∙◌, ◌==◌, false, true, Option, some, Result, Result-cases,
  Option-cases, inl, inr, ok, eq_refl, nat_eq, arith,
}
use upcloud_operator.Errors.{Err}
use upcloud_operator.Kube.{Library}
use upcloud_operator.Effects.{World, Call, missing_as_none}
use upcloud_operator.Balancers.RuleTypes.{Rule, Frontend, external_name}
use upcloud_operator.Balancers.Upcloud
use upcloud_operator.Balancers.Upcloud.{
  RuleApi, RulePath, RuleRequest, ReplaceRule, SdkNames, DeepEqual, IsDeepEqual,
}
use upcloud_operator.Balancers.RuleConvert.{to_rule}
use upcloud_operator.Balancers.RuleAdapter.{
  path_of, replace_request, rule_up_to_date, parent, observe, update, update_found,
}

-- A rule that is read after it was sent.
abbrev pub as_sent : RuleRequest → Upcloud.Rule
as_sent q = record {
  name = q.name;
  priority = q.priority;
  matching_condition = q.matching_condition;
  matchers = some q.matchers;
  actions = some q.actions;
}

-- What the adapter relies on of the API: an account holds rules by service, frontend and name, and
-- a replacement that keeps the name leaves the rule that was sent. A call may fail at any time.
pub record IsRuleStore {C : Type 0} (api : RuleApi C) : Type 1 where
  pub held : C → RulePath → Option Upcloud.Rule
  pub get-found :
      (c : C) (n : RulePath) (r : Upcloud.Rule) → held c n ≡ some r → (api.get_rule n c).0 ≡ ok r
  pub replace-applies :
      (c : C) (q : ReplaceRule) (r : Upcloud.Rule)
      → q.rule.name ≡ q.path.name
      → (api.replace_rule q c).0 ≡ ok r
      → held (api.replace_rule q c).1 q.path ≡ some (as_sent q.rule)

nat_eq_refl : (n : ℕ) → nat_eq n n ≡ true
nat_eq_refl n = ground arith

-- The comparison accepts a rule as it was sent.
as_sent-up_to_date :
    (D : DeepEqual) → IsDeepEqual D → (q : RuleRequest) → rule_up_to_date D (as_sent q) q ≡ true
unfolding rule_up_to_date
as_sent-up_to_date D E q =
    rw
      (
        eq_refl q.name,
        nat_eq_refl q.priority,
        eq_refl q.matching_condition,
        E.matchers_refl (some q.matchers),
        E.actions_refl (some q.actions),
      )
      refl

module _ {C K : Type 0} (L : Library) (names : SdkNames) (D : DeepEqual) (api : RuleApi C)
    (read_frontend : K → String → String → Result Err Frontend) (E : IsDeepEqual D)
    (S : IsRuleStore api) where
  observe-held :
      (s : Call Rule (World C K)) (r : Upcloud.Rule)
      → (s.obj.status.service_uuid == "") ≡ false
      → (s.obj.status.frontend_name == "") ≡ false
      → S.held s.world.cloud (path_of s.obj) ≡ some r
      → (observe L names D api read_frontend s).0
        ≡ ok (record {
          exists = true;
          up_to_date = rule_up_to_date D r (to_rule names s.obj);
          ready = true;
          message = "frontend rule " <> r.name;
        })
  unfolding observe parent missing_as_none
  observe-held s r service frontend held =
      rw (service, frontend, S.get-found s.world.cloud _ r held) refl

  -- The replacement that Update sends.
  update_found-settled :
      (s : Call Rule (World C K)) (old : Upcloud.Rule)
      → (s.obj.status.service_uuid == "") ≡ false
      → (s.obj.status.frontend_name == "") ≡ false
      → (update_found L names D api read_frontend (some old) s).0 ≡ ok tt
      → (observe L names D api read_frontend
          (update_found L names D api read_frontend (some old) s).1).0
        ≡ ok (record {
          exists = true;
          up_to_date = true;
          ready = true;
          message = "frontend rule " <> external_name s.obj;
        })
  unfolding update_found replace_request to_rule path_of
  update_found-settled s old service frontend done =
      let q = replace_request names s.obj in
      let c = s.world.cloud in
      Result-cases _ (api.replace_rule q c).0
        (λ r answer. rw answer (
          observe-held _ (as_sent q.rule) service frontend (S.replace-applies c q r refl answer)
          ∙ rw (as_sent-up_to_date D E (to_rule names s.obj)) refl))
        (λ e answer. cc (rw answer at done))

  -- If Update succeeds for a rule whose service and frontend are known, then the next Observe
  -- reports that the rule exists, is up to date and is ready.
  pub observe-update_rule :
      (s : Call Rule (World C K))
      → (s.obj.status.service_uuid == "") ≡ false
      → (s.obj.status.frontend_name == "") ≡ false
      → (update L names D api read_frontend s).0 ≡ ok tt
      → (observe L names D api read_frontend (update L names D api read_frontend s).1).0
        ≡ ok (record {
          exists = true;
          up_to_date = true;
          ready = true;
          message = "frontend rule " <> external_name s.obj;
        })
  unfolding update parent
  observe-update_rule s service frontend done =
      let c = s.world.cloud in
      let n = path_of s.obj in
      let after : C → Call Rule (World C K) =
        λ d. record s { world = record (s.world) { cloud = d } } in
      Result-cases _ (missing_as_none (api.get_rule n c).0)
        (λ found answer. elim (Option-cases found) [
          | inl missing ↦ cc (rw (service, frontend, answer, missing) at done)
          | inr (old, here) ↦
              rw (service, frontend, answer, here)
                (update_found-settled (after (api.get_rule n c).1) old service frontend
                  (rw (service, frontend, answer, here) at done))
        ])
        (λ e answer. cc (rw (service, frontend, answer) at done))
