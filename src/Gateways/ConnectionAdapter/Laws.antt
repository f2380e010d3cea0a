-- ===== src/Gateways/ConnectionAdapter/Laws.antt =====
-- What Update and Delete of a gateway connection achieve.
use upcloud_operator.Prelude.{
  String, ◌≡◌, refl, ◌∙◌, ◌==◌, false, true, ◌||◌, Result, Result-cases, ok, arith, some, none,
}
use upcloud_operator.Errors.{Err}
use upcloud_operator.Kube.{Library}
use upcloud_operator.Effects.{World, Call}
use upcloud_operator.Networking.Store.{IsStore, deleted-gone}
use upcloud_operator.Gateways.Types.{Gateway, Connection}
use upcloud_operator.Gateways.Upcloud
use upcloud_operator.Gateways.Upcloud.{ConnectionApi, ModifyConnection}
use upcloud_operator.Gateways.Sets.{gateway_routes_equal_refl, to_gateway_routes}
use upcloud_operator.Gateways.ConnectionAdapter.{
  with_gateway, same_routes, modify_request, parent_gateway_uuid, observe, update, delete, lookup,
  lookup_in,
}

-- A connection after a modify request, which replaces both route sets.
abbrev pub modified : ModifyConnection → Upcloud.Connection → Upcloud.Connection
modified r c = record c { local_routes = r.local_routes; remote_routes = r.remote_routes }

-- The laws of the connections of an account.
abbrev pub IsConnectionStore : {C : Type 0} → ConnectionApi C → Type 1
IsConnectionStore api =
    IsStore api.get_gateway_connection api.modify_gateway_connection api.delete_gateway_connection
      (λ q. (q.service_uuid, q.uuid)) modified

modified-same_routes :
    (c : Connection) (gw : String) (old : Upcloud.Connection)
    → same_routes c (modified (modify_request c gw) old) ≡ true
unfolding same_routes modify_request
modified-same_routes c gw old = ground (
  arith,
  gateway_routes_equal_refl (to_gateway_routes c.spec.local_routes),
  gateway_routes_equal_refl (to_gateway_routes c.spec.remote_routes),
)

-- The parent of a connection does not depend on its status.
parent-with_gateway :
    {K : Type 0} (L : Library) (read_gateway : K → String → String → Result Err Gateway)
    (c : Connection) (gw : String) (k : K)
    → parent_gateway_uuid L read_gateway (with_gateway c gw) false k
      ≡ parent_gateway_uuid L read_gateway c false k
unfolding parent_gateway_uuid
parent-with_gateway L read_gateway c gw k = refl

module _ {C K : Type 0} (L : Library) (api : ConnectionApi C)
    (read_gateway : K → String → String → Result Err Gateway) (S : IsConnectionStore api) where
  observe-settled :
      (s : Call Connection (World C K)) (gw : String) (conn : Upcloud.Connection)
      → (s.obj.status.uuid == "") ≡ false
      → parent_gateway_uuid L read_gateway s.obj false s.world.cluster ≡ ok gw
      → S.held s.world.cloud (gw, s.obj.status.uuid) ≡ some conn
      → same_routes s.obj conn ≡ true
      → (observe L api read_gateway s).0
        ≡ ok (record { exists = true; up_to_date = true; ready = true; message = "" })
  unfolding observe lookup lookup_in same_routes
  observe-settled s gw conn known parent held settled =
      let again = parent-with_gateway L read_gateway s.obj gw s.world.cluster ∙ parent in
      rw
        (parent, again, known, S.get-found (gw, s.obj.status.uuid) s.world.cloud conn held, settled)
        refl

  -- If Update succeeds for an object with a UUID whose gateway has an identifier, then the next
  -- Observe reports that the connection exists, is up to date and is ready.
  pub observe-update_connection :
      (s : Call Connection (World C K)) (gw : String)
      → (s.obj.status.uuid == "") ≡ false
      → parent_gateway_uuid L read_gateway s.obj false s.world.cluster ≡ ok gw
      → (update L api read_gateway s).0 ≡ ok tt
      → (observe L api read_gateway (update L api read_gateway s).1).0
        ≡ ok (record { exists = true; up_to_date = true; ready = true; message = "" })
  unfolding update modify_request
  observe-update_connection s gw known parent done =
      let q = modify_request s.obj gw in
      let c = s.world.cloud in
      Result-cases _ (api.modify_gateway_connection q c).0
        (λ conn answer.
          let applied = S.modify-applies q c conn answer in
          rw (parent, answer)
            (observe-settled _ gw (modified q applied.old) known parent applied.is_now
              (modified-same_routes s.obj gw applied.old)))
        (λ e answer. cc (rw (parent, answer) at done))

  -- If Delete succeeds in a valid state of the account, for an object with both UUIDs, then the
  -- account does not hold the connection any more.
  pub held-delete_connection :
      (s : Call Connection (World C K))
      → S.IsValid s.world.cloud
      → (s.obj.status.uuid == "" || s.obj.status.gateway_uuid == "") ≡ false
      → (delete L api read_gateway s).0 ≡ ok tt
      → S.held
          (delete L api read_gateway s).1.world.cloud
          (s.obj.status.gateway_uuid, s.obj.status.uuid)
        ≡ none
  unfolding delete
  held-delete_connection s valid known done = rw known (
      deleted-gone S "delete gateway connection" (s.obj.status.gateway_uuid, s.obj.status.uuid)
        s.world.cloud valid (rw known at done))
