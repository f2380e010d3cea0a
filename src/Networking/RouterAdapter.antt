-- ===== src/Networking/RouterAdapter.antt =====
-- internal/controller/network/router_adapter.go
pub mod Converges
pub mod Settles
pub mod Deletes
use upcloud_operator.Prelude.{
  String, Bool, true, false, not, ◌&&◌, Option, none, some, List, ◌==◌, if◌then◌else◌, Result, ok,
  err, map_err,
}
use upcloud_operator.Errors.{Err, wrap}
use upcloud_operator.Effects.{
  World, Call, Method, pure, ◌>>=◌, ◌>>◌, get_obj, set_obj, wrapping, cloud_call, missing_as_none,
  deleted,
}
use upcloud_operator.Reconciler.{Observation, absent, Adapter}
use upcloud_operator.Labels.{labels_equal, desired_labels, uid_filter, find_owned}
use upcloud_operator.Networking.Types.{Router, external_name}
use upcloud_operator.Networking.Upcloud
use upcloud_operator.Networking.Upcloud.{NetworkApi}
use upcloud_operator.Networking.Convert.{to_static_routes, user_routes, routes_equal}

-- upToDate of Observe.
unfoldable pub same_settings : Router → Upcloud.Router → Bool
same_settings r rt =
    rt.name == external_name r.spec.name r.meta
    && (routes_equal (user_routes rt.static_routes) (to_static_routes r.spec.static_routes)
        && labels_equal rt.labels (desired_labels r.meta r.spec.labels))

-- The request of Update.
unfoldable pub modify_request : Router → Upcloud.ModifyRouter
modify_request r = record {
  uuid = r.status.uuid;
  name = external_name r.spec.name r.meta;
  labels = some (desired_labels r.meta r.spec.labels);
  static_routes = some (to_static_routes r.spec.static_routes);
}

-- The status that Observe writes.
abbrev pub with_found : Router → Upcloud.Router → Router
with_found r rt = record r {
  status = record (r.status) { uuid = rt.uuid; attached_networks = rt.attached_networks };
}

unfoldable pub lookup :
    {C : Type 0} → NetworkApi C → Router → C → Result Err (Option Upcloud.Router) × C
unfolding missing_as_none find_owned
lookup api r c =
    if not (r.status.uuid == "")
    then (let (answer, c') = api.get_router_details r.status.uuid c in (missing_as_none answer, c'))
    else let (answer, c') = api.get_routers (uid_filter r.meta) c in
      ((elim answer [ err e ↦ err e | ok l ↦ ok (find_owned (λ m. m.labels) r.meta.uid l) ]), c')

module _ {C K : Type 0} (api : NetworkApi C) where
  pub observe_found : Option Upcloud.Router → Method Router (World C K) Observation
  observe_found none = pure absent
  observe_found (some rt) = do
    r ← get_obj
    set_obj (with_found r rt)
    pure (record { exists = true; up_to_date = same_settings r rt; ready = true; message = "" })

  unfoldable pub observe : Method Router (World C K) Observation
  unfolding observe_found
  observe = do
    r ← get_obj
    found ← wrapping "get router" (cloud_call (lookup api r))
    observe_found found

  unfoldable pub create : Method Router (World C K) (Unit {0})
  create = do
    r ← get_obj
    rt ← wrapping "create router" (
        cloud_call (
          api.create_router (record {
            name = external_name r.spec.name r.meta;
            labels = desired_labels r.meta r.spec.labels;
            static_routes = to_static_routes r.spec.static_routes;
          })))
    set_obj (record r { status = record (r.status) { uuid = rt.uuid } })

  unfoldable pub update : Method Router (World C K) (Unit {0})
  update = do
    r ← get_obj
    wrapping "modify router" (cloud_call (api.modify_router (modify_request r)))
    pure tt

  unfoldable pub delete : Method Router (World C K) (Unit {0})
  unfolding deleted
  delete s =
      let uuid = s.obj.status.uuid in
      if uuid == ""
      then (ok tt, s)
      else let (r, s') = cloud_call (api.delete_router uuid) s in (deleted "delete router" r, s')

  abbrev pub router_adapter : Adapter Router (World C K)
  router_adapter = record { observe = observe; create = create; update = update; delete = delete }
