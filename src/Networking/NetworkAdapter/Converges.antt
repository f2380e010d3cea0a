-- ===== src/Networking/NetworkAdapter/Converges.antt =====
-- An Update that succeeds leaves nothing to update.
use upcloud_operator.Prelude.{
  List, none, String, ◌≡◌, refl, sym, subst, ap, ◌∙◌, ◌≢◌, true, false, not, if◌then◌else◌, ◌&&◌,
  some, ◌==◌, Result, Result-cases, ok, arith, eq_iff, eq_refl, Bool-cases, inl, inr,
}
use upcloud_operator.Errors.{is_not_found, Err}
use upcloud_operator.Kube.{Library}
use upcloud_operator.Effects.{World, Call}
use upcloud_operator.Reconciler.{Observation}
use upcloud_operator.Labels.{desired_labels}
use upcloud_operator.Labels.Laws.{labels_equal_refl}
use upcloud_operator.Networking.Types.{Network, Router, external_name}
use upcloud_operator.Networking.Upcloud
use upcloud_operator.Networking.Upcloud.{NetworkApi}
use upcloud_operator.Networking.Convert.{to_ip_networks, ip_networks_equal, ptr_default}
use upcloud_operator.Networking.Convert.Laws.{ip_networks_equal-IsFilled}
use upcloud_operator.Networking.NetworkStore.{IsNetworkStore, IsModified, AreStored}
use upcloud_operator.Networking.NetworkAdapter.{
  same_settings, modify_request, desired_router_uuid, lookup, observe, update, update_router,
  modify, update_found,
}

-- The subnets are sent unless they are as they should be.
subnets_equal :
    (old new want : List Upcloud.IpNetwork)
    → AreStored (if not (ip_networks_equal old want) then some want else none) old new
    → ip_networks_equal new want ≡ true
unfolding AreStored
subnets_equal old new want m = elim (Bool-cases (ip_networks_equal old want)) [
  | inl same ↦ let kept : new ≡ old = rw same at m in ap (λ l. ip_networks_equal l want) kept ∙ same
  | inr other ↦ ip_networks_equal-IsFilled (rw other at m)
]

-- What the request of Update asks for is what Observe compares with, for a name that is not empty.
modified-same_settings :
    (n : Network) (net new : Upcloud.Network)
    → external_name n.spec.name n.meta ≢ ""
    → IsModified (modify_request n net) net new
    → same_settings n new ≡ true
unfolding same_settings modify_request ptr_default
modified-same_settings n net new named m =
    let name : new.name ≡ (
        if not (external_name n.spec.name n.meta == "")
        then external_name n.spec.name n.meta
        else net.name) =
      ap (λ (v : Upcloud.Network). v.name) m.rest in
    let labels : new.labels ≡ desired_labels n.meta n.spec.labels =
      ap (λ (v : Upcloud.Network). v.labels) m.rest in
    rw (name, labels)
      (ground (
        arith,
        eq_iff (external_name n.spec.name n.meta) "",
        eq_refl (external_name n.spec.name n.meta),
        labels_equal_refl (desired_labels n.meta n.spec.labels),
        subnets_equal net.ip_networks new.ip_networks (to_ip_networks n.spec.ip_networks)
            m.ip_networks,
      ))

-- The router plays no part in the settings.
same_settings-router :
    (n : Network) (net : Upcloud.Network) (router : String)
    → same_settings n (record net { router = router }) ≡ same_settings n net
unfolding same_settings
same_settings-router n net router = refl

module _ {C K : Type 0} (L : Library) (api : NetworkApi C)
    (read_router : K → String → String → Result Err Router) (S : IsNetworkStore api) (n : Network)
    (named : external_name n.spec.name n.meta ≢ "") where
  -- The account of `s` holds a network with the settings of the spec and with this router, and the
  -- object and the Kubernetes side are still those of `s₀`.
  record Holds (s₀ : Call Network (World C K)) (uuid router : String) (s : Call Network (World C K))
      : Type 0 where
    net : Upcloud.Network
    held : S.network s.world.cloud uuid ≡ some net
    settled : same_settings n net ≡ true
    router_is : net.router ≡ router
    obj : s.obj ≡ s₀.obj
    cluster : s.world.cluster ≡ s₀.world.cluster

  modify-Holds :
      (s : Call Network (World C K)) (net : Upcloud.Network)
      → S.network s.world.cloud net.uuid ≡ some net
      → (modify L api read_router n net s).0 ≡ ok tt
      → Holds s net.uuid net.router (modify L api read_router n net s).1
  unfolding modify modify_request
  modify-Holds s net held done = elim (Bool-cases (same_settings n net)) [
    | inl same ↦ rw same (record {
      net = net;
      held = held;
      settled = same;
      router_is = refl;
      obj = refl;
      cluster = refl;
    })
    | inr drift ↦
        Result-cases _ (api.modify_network (modify_request n net) s.world.cloud).0
          (λ m answer.
            let (new, stored, changed) =
              S.modify-applies (modify_request n net) s.world.cloud net m held answer in
            rw (drift, answer)
              (record {
                net = new;
                held = stored;
                settled = modified-same_settings n net new named changed;
                router_is = ap (λ (v : Upcloud.Network). v.router) changed.rest;
                obj = refl;
                cluster = refl;
              }))
          (λ e answer. cc (rw (drift, answer) at done))
  ]

  update_router-Holds :
      (s₀ s : Call Network (World C K)) (net : Upcloud.Network) (desired : String)
      → Holds s₀ net.uuid net.router s
      → (update_router L api read_router desired net s).0 ≡ ok tt
      → Holds s₀ net.uuid desired (update_router L api read_router desired net s).1
  unfolding update_router
  update_router-Holds s₀ s net desired h done =
      elim (Bool-cases (not (net.router == desired) && not (desired == ""))) [
        | inl attach ↦
            Result-cases _ (api.attach_network_router net.uuid desired s.world.cloud).0
              (λ _ answer. rw attach (record {
                net = record (h.net) { router = desired };
                held = S.attach-applies net.uuid desired s.world.cloud h.net h.held answer;
                settled = same_settings-router n h.net desired ∙ h.settled;
                router_is = refl;
                obj = h.obj;
                cluster = h.cluster;
              }))
              (λ e answer. cc (rw (attach, answer) at done))
        | inr other ↦ elim (Bool-cases (not (net.router == "") && desired == "")) [
          | inl detach ↦
              Result-cases _ (api.detach_network_router net.uuid s.world.cloud).0
                (λ _ answer.
                  rw (other, detach)
                    (record {
                      net = record (h.net) { router = "" };
                      held = S.detach-applies net.uuid s.world.cloud h.net h.held answer;
                      settled = same_settings-router n h.net "" ∙ h.settled;
                      router_is = ground (arith, eq_iff desired "");
                      obj = h.obj;
                      cluster = h.cluster;
                    }))
                (λ e answer. cc (rw (other, detach, answer) at done))
          | inr same ↦
              rw (other, same)
                (record {
                  net = h.net;
                  held = h.held;
                  settled = h.settled;
                  router_is =
                      ground
                        (arith, eq_iff desired "", eq_iff net.router "", eq_iff net.router desired);
                  obj = h.obj;
                  cluster = h.cluster;
                })
        ]
      ]

module _ {C K : Type 0} (L : Library) (api : NetworkApi C)
    (read_router : K → String → String → Result Err Router) (S : IsNetworkStore api) where
  abbrev settled_observation : Observation
  settled_observation = record { exists = true; up_to_date = true; ready = true; message = "" }

  update_found-Holds :
      (s : Call Network (World C K)) (net : Upcloud.Network) (desired : String)
      (named : external_name s.obj.spec.name s.obj.meta ≢ "")
      → S.network s.world.cloud net.uuid ≡ some net
      → (update_found L api read_router desired (some net) s).0 ≡ ok tt
      → Holds L api read_router S s.obj named s net.uuid desired
          (update_found L api read_router desired (some net) s).1
  unfolding update_found
  update_found-Holds s net desired named held done =
      let n = s.obj in
      let s' = (modify L api read_router n net s).1 in
      Result-cases _ (modify L api read_router n net s).0
        (λ _ answer. rw answer (
          update_router-Holds L api read_router S n named s s' net desired
            (modify-Holds L api read_router S n named s net held answer) (rw answer at done)))
        (λ e answer. cc (rw answer at done))

  -- Observe of an object whose network is held with the settings and the router of the spec.
  observe-settled :
      (n : Network) (c : C) (k : K) (desired : String) (net : Upcloud.Network)
      → (n.status.uuid == "") ≡ false
      → desired_router_uuid L api read_router n k ≡ ok desired
      → S.network c n.status.uuid ≡ some net
      → same_settings n net ≡ true
      → net.router ≡ desired
      → (observe L api read_router
          (record { obj = n; world = record { cloud = c; cluster = k } })).0
        ≡ ok settled_observation
  unfolding observe lookup
  observe-settled n c k desired net known router held settled attached =
      rw (router, known, S.get-found n.status.uuid c net held)
        (ground (arith, eq_iff net.router desired))

  -- Observe finds what Update left.
  observe-Holds :
      (s₀ s : Call Network (World C K)) (desired : String)
      (named : external_name s₀.obj.spec.name s₀.obj.meta ≢ "")
      → (s₀.obj.status.uuid == "") ≡ false
      → desired_router_uuid L api read_router s₀.obj s₀.world.cluster ≡ ok desired
      → Holds L api read_router S s₀.obj named s₀ s₀.obj.status.uuid desired s
      → (observe L api read_router s).0 ≡ ok settled_observation
  observe-Holds s₀ s desired named known router h =
      ap (λ (t : Call Network (World C K)). (observe L api read_router t).0)
        (λ i. record {
          obj = h.obj i;
          world = record { cloud = s.world.cloud; cluster = h.cluster i };
        })
      ∙ observe-settled s₀.obj s.world.cloud s₀.world.cluster desired h.net known router h.held
          h.settled h.router_is

  -- If Update succeeds in a valid state of the account, for an object with a UUID and with a name
  -- that is not empty, then the next Observe reports that the network exists, is up to date and is ready.
  pub update-converges :
      (s : Call Network (World C K))
      → S.IsValid s.world.cloud
      → (s.obj.status.uuid == "") ≡ false
      → external_name s.obj.spec.name s.obj.meta ≢ ""
      → (update L api read_router s).0 ≡ ok tt
      → (observe L api read_router (update L api read_router s).1).0
        ≡ ok (record { exists = true; up_to_date = true; ready = true; message = "" })
  unfolding update lookup
  update-converges s valid known named done =
      Result-cases _ (desired_router_uuid L api read_router s.obj s.world.cluster)
        (λ desired router.
          Result-cases _ (api.get_network_details s.obj.status.uuid s.world.cloud).0
            (λ net answer.
              let sound = S.get-sound s.obj.status.uuid s.world.cloud net answer in
              let after = (api.get_network_details s.obj.status.uuid s.world.cloud).1 in
              let at : Call Network (World C K) = record {
                obj = s.obj;
                world = record (s.world) { cloud = after };
              } in
              let same = S.network-uuid s.world.cloud s.obj.status.uuid net valid sound in
              let held = S.get-keeps s.obj.status.uuid s.world.cloud s.obj.status.uuid ∙ sound in
              rw (router, known, answer)
                (observe-Holds at _ desired named known router (
                  subst
                    (λ (u : String).
                      Holds L api read_router S s.obj named at u desired
                        (update_found L api read_router desired (some net) at).1)
                    same
                    (update_found-Holds at net desired named
                      (subst (λ (u : String). S.network after u ≡ some net) (sym same) held)
                      (rw (router, known, answer) at done)))))
            (λ e answer. elim (Bool-cases (is_not_found e)) [
              | inl missing ↦ cc (rw (router, known, answer, missing) at done)
              | inr other ↦ cc (rw (router, known, answer, other) at done)
            ]))
        (λ e router. cc (rw router at done))
