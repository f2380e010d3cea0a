-- ===== src/Storage/ServiceAdapter/Laws.antt =====
-- What Update of a managed object storage achieves.
use mathlib.Core.Option.{some-injective}
use upcloud_operator.Prelude.{
  String, ◌<>◌, ◌≡◌, refl, ap, sym, ◌∙◌, ◌==◌, Bool, false, true, bool_eq, Option, some, none, List,
  Result, Result-cases, Bool-cases, inl, inr, ok, eq_refl, eq_iff, arith, ◌&&◌, ◌||◌,
}
use upcloud_operator.Errors.{Err}
use upcloud_operator.Kube.{Library}
use upcloud_operator.Effects.{World, Call, missing_as_none}
use upcloud_operator.Labels.{desired_labels, labels_equal}
use upcloud_operator.Labels.Laws.{labels_equal_refl}
use upcloud_operator.Networking.Types.{Network}
use upcloud_operator.Networking.Store.{IsStore}
use upcloud_operator.Storage.Types.{Service, external_name, desired_configured_status}
use upcloud_operator.Storage.Upcloud
use upcloud_operator.Storage.Upcloud.{ServiceApi, ServiceNetwork, ModifyService}
use upcloud_operator.Storage.ServiceNetworks.{mos_networks_equal, mos_networks_equal_refl}
use upcloud_operator.Storage.ServiceAdapter.{
  ServiceStates, spec_matches, state_ready, unless_same, is_nil, is_empty_request, modify_request,
  networks_of, send_changes, update_found, update, observe, lookup,
}

abbrev pub or_old : {A : Type 0} → Option A → A → A
or_old none old = old
or_old (some new) old = new

-- A service after a modify request: a field that is nil stays as it is. The state may change with
-- the request, and `state` is what it is afterwards.
abbrev pub modified :
    (ModifyService → Upcloud.Service → String) → ModifyService → Upcloud.Service → Upcloud.Service
modified state q v = record v {
  operational_state = state q v;
  name = or_old q.name v.name;
  configured_status = or_old q.configured_status v.configured_status;
  termination_protection = or_old q.termination_protection v.termination_protection;
  labels = or_old q.labels v.labels;
  networks = or_old q.networks v.networks;
}

-- The laws of the services of an account.
abbrev pub IsServiceStore :
    {C : Type 0} → ServiceApi C → (ModifyService → Upcloud.Service → String) → Type 1
IsServiceStore api state =
    IsStore api.get_service api.modify_service (api.delete_service false) (λ q. q.uuid)
      (modified state)

-- A service is ready if it runs, or if it is stopped and was to be stopped.
is_usable : ServiceStates → Upcloud.Service → Service → Bool
is_usable states svc s =
    svc.operational_state == states.running
    || (svc.operational_state == states.stopped && s.spec.configured_status == "stopped")

-- Only a configured status that says so is that of a stopped service: the default is another.
stopped-default :
    (s : Service)
    → (desired_configured_status s == "stopped") ≡ (s.spec.configured_status == "stopped")
unfolding desired_configured_status
stopped-default s = elim (Bool-cases (s.spec.configured_status == "")) [
  | inl none_given ↦ rw (none_given, (eq_iff s.spec.configured_status "").0 none_given) refl
  | inr given ↦ rw given refl
]

state_ready-is_usable :
    (states : ServiceStates) (svc : Upcloud.Service) (s : Service)
    → state_ready states svc s ≡ is_usable states svc s
unfolding state_ready is_usable
state_ready-is_usable states svc s = elim (Bool-cases (svc.operational_state == states.running)) [
  | inl runs ↦ rw runs refl
  | inr other ↦ elim (Bool-cases (svc.operational_state == states.stopped)) [
    | inl stopped ↦ rw (other, stopped) (stopped-default s)
    | inr neither ↦ rw (other, neither) refl
  ]
]

-- A field that was sent if it drifted is as it is wanted.
same-or_old :
    {A : Type 0} (same : A → A → Bool) (old wanted : A)
    → same wanted wanted ≡ true
    → same (or_old (unless_same (same old wanted) wanted) old) wanted ≡ true
same-or_old same old wanted self = elim (Bool-cases (same old wanted)) [
  | inl kept ↦ rw kept kept
  | inr drifted ↦ rw drifted self
]

is_nil-unless_same : {A : Type 0} (b : Bool) (v : A) → is_nil (unless_same b v) ≡ true → b ≡ true
is_nil-unless_same true v h = refl
is_nil-unless_same false v h = cc

bool_eq_refl : (b : Bool) → bool_eq b b ≡ true
bool_eq_refl true = refl
bool_eq_refl false = refl

module _ (state : ModifyService → Upcloud.Service → String) (s : Service)
    (networks : List ServiceNetwork) (old : Upcloud.Service)
    (region : (old.region == s.spec.region) ≡ true) where
  modified-spec_matches :
      spec_matches (modified state (modify_request s networks old) old) s networks ≡ true
  unfolding spec_matches modify_request
  modified-spec_matches = ground (
    arith,
    region,
    same-or_old (λ a b. a == b) old.name (external_name s.spec.name s.meta)
        (eq_refl (external_name s.spec.name s.meta)),
    same-or_old bool_eq old.termination_protection s.spec.termination_protection
        (bool_eq_refl s.spec.termination_protection),
    same-or_old (λ a b. a == b) old.configured_status (desired_configured_status s)
        (eq_refl (desired_configured_status s)),
    same-or_old labels_equal old.labels (desired_labels s.meta s.spec.labels)
        (labels_equal_refl (desired_labels s.meta s.spec.labels)),
    same-or_old mos_networks_equal old.networks networks (mos_networks_equal_refl networks),
  )

  -- A request without changes is due to a service that needs none.
  is_empty_request-spec_matches :
      is_empty_request (modify_request s networks old) ≡ true → spec_matches old s networks ≡ true
  unfolding is_empty_request spec_matches modify_request
  is_empty_request-spec_matches h = ground (
    arith,
    h,
    region,
    is_nil-unless_same (old.name == external_name s.spec.name s.meta)
        (external_name s.spec.name s.meta),
    is_nil-unless_same (bool_eq old.termination_protection s.spec.termination_protection)
        s.spec.termination_protection,
    is_nil-unless_same (old.configured_status == desired_configured_status s)
        (desired_configured_status s),
    is_nil-unless_same (labels_equal old.labels (desired_labels s.meta s.spec.labels))
        (desired_labels s.meta s.spec.labels),
    is_nil-unless_same (mos_networks_equal old.networks networks) networks,
  )

module _ {C K : Type 0} (L : Library) (states : ServiceStates) (api : ServiceApi C)
    (read_network : K → String → String → Result Err Network)
    (state : ModifyService → Upcloud.Service → String) (S : IsServiceStore api state) where
  -- The account holds the service, and Observe reports that it exists and is up to date; it is ready
  -- exactly if it runs, or is stopped and was to be stopped.
  pub record Settled (s : Call Service (World C K)) : Type 0 where
    pub now : Upcloud.Service
    pub held : S.held s.world.cloud s.obj.status.uuid ≡ some now
    pub observed :
        (observe L states api read_network s).0
        ≡ ok (record {
          exists = true;
          up_to_date = true;
          ready =
              now.operational_state == states.running
              || (now.operational_state == states.stopped
                  && s.obj.spec.configured_status == "stopped");
          message = "state " <> now.operational_state;
        })

  observe-held :
      (s : Call Service (World C K)) (svc : Upcloud.Service) (networks : List ServiceNetwork)
      → (s.obj.status.uuid == "") ≡ false
      → S.held s.world.cloud s.obj.status.uuid ≡ some svc
      → networks_of L states api read_network s.obj s.world.cluster ≡ ok networks
      → (observe L states api read_network s).0
        ≡ ok (record {
          exists = true;
          up_to_date = spec_matches svc s.obj networks;
          ready = state_ready states svc s.obj;
          message = "state " <> svc.operational_state;
        })
  unfolding observe lookup missing_as_none
  observe-held s svc networks known held wanted =
      rw (known, S.get-found s.obj.status.uuid s.world.cloud svc held, wanted) refl

  held-Settled :
      (s : Call Service (World C K)) (svc : Upcloud.Service) (networks : List ServiceNetwork)
      → (s.obj.status.uuid == "") ≡ false
      → S.held s.world.cloud s.obj.status.uuid ≡ some svc
      → networks_of L states api read_network s.obj s.world.cluster ≡ ok networks
      → spec_matches svc s.obj networks ≡ true
      → Settled s
  unfolding is_usable
  held-Settled s svc networks known held wanted fresh = record {
    now = svc;
    held = held;
    observed =
        observe-held s svc networks known held wanted
        ∙ rw (fresh, state_ready-is_usable states svc s.obj) refl;
  }

  -- The changes that Update sends, to an account that holds the service.
  send_changes-Settled :
      (s : Call Service (World C K)) (old : Upcloud.Service) (networks : List ServiceNetwork)
      → (s.obj.status.uuid == "") ≡ false
      → old.uuid ≡ s.obj.status.uuid
      → (old.region == s.obj.spec.region) ≡ true
      → S.held s.world.cloud s.obj.status.uuid ≡ some old
      → networks_of L states api read_network s.obj s.world.cluster ≡ ok networks
      → (send_changes L states api read_network (modify_request s.obj networks old) s).0 ≡ ok tt
      → Settled (send_changes L states api read_network (modify_request s.obj networks old) s).1
  unfolding send_changes modify_request
  send_changes-Settled s old networks known id region was wanted done =
      let q = modify_request s.obj networks old in
      let c = s.world.cloud in
      elim (Bool-cases (is_empty_request q)) [
        | inl nothing ↦ rw nothing (
            held-Settled s old networks known was wanted
              (is_empty_request-spec_matches state s.obj networks old region nothing))
        | inr drift ↦
            Result-cases _ (api.modify_service q c).0
              (λ svc answer.
                let applied = S.modify-applies q c svc answer in
                let same : applied.old ≡ old =
                  some-injective _ _ (sym applied.was ∙ (ap (S.held c) id ∙ was)) in
                rw (drift, answer)
                  (held-Settled _ (modified state q old) networks known
                    (ap (S.held (api.modify_service q c).1) (sym id)
                      ∙ applied.is_now
                      ∙ ap (λ (v : Upcloud.Service). some (modified state q v)) same)
                    wanted (modified-spec_matches state s.obj networks old region)))
              (λ e answer. cc (rw (drift, answer) at done))
      ]

  -- If Update succeeds for an object with a UUID whose service the account holds under it, with the
  -- region of the spec, and whose networks resolve, then the account holds the service and the next
  -- Observe reports that it exists and is up to date; it is ready exactly if by then it runs, or is
  -- stopped and was to be stopped.
  pub observe-update_service :
      (s : Call Service (World C K)) (old : Upcloud.Service) (networks : List ServiceNetwork)
      → (s.obj.status.uuid == "") ≡ false
      → old.uuid ≡ s.obj.status.uuid
      → (old.region == s.obj.spec.region) ≡ true
      → S.held s.world.cloud s.obj.status.uuid ≡ some old
      → networks_of L states api read_network s.obj s.world.cluster ≡ ok networks
      → (update L states api read_network s).0 ≡ ok tt
      → Settled (update L states api read_network s).1
  unfolding update update_found lookup missing_as_none
  observe-update_service s old networks known id region was wanted done =
      let c = s.world.cloud in
      let uuid = s.obj.status.uuid in
      let answer = S.get-found uuid c old was in
      rw (known, answer, wanted)
        (send_changes-Settled
          (record s { world = record (s.world) { cloud = (api.get_service uuid c).1 } }) old
          networks known id region (S.get-keeps uuid c uuid ∙ was) wanted
          (rw (known, answer, wanted) at done))
