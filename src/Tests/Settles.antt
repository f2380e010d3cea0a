-- ===== src/Tests/Settles.antt =====
-- Two passes of the loop over the router of the fixtures, which drifted.
use upcloud_operator.Prelude.{
  ◌≡◌, String, refl, Option, none, some, ok, err, ◌<>◌, Result, [], true,
}
use upcloud_operator.Errors.{Err, api_error}
use upcloud_operator.Kube.{Client}
use upcloud_operator.Kube.Model.{library, library-IsLibrary}
use upcloud_operator.Effects.{World}
use upcloud_operator.Reconciler.{reconcile}
use upcloud_operator.Reconciler.Options.{pos, Intervals}
use upcloud_operator.Networking.Types.{Router, router_object, router_object-IsObject}
use upcloud_operator.Networking.RouterAdapter.{router_adapter, modify_request, with_found}
use upcloud_operator.Networking.RouterAdapter.Settles.{
  IsRepairable, HasSettled, reconcile-router_settles,
}
use upcloud_operator.Fake.Network.{Account}
use upcloud_operator.Fake.Network.Laws.{router_store}
use upcloud_operator.Networking.Upcloud
use upcloud_operator.Tests.Fixtures.{finalizer, api, account, router, problem_text}

abbrev intervals : Intervals
intervals = record { pending_requeue = pos 0; dependency_requeue = pos 0; steady_requeue = pos 0 }

-- The API server holds at most one router.
abbrev router_client : Client Router (Option Router)
router_client = record {
  get = λ k namespace name. elim k [
    | some n ↦ ok n
    | none ↦ err (api_error true (name <> " not found"))
  ];
  update = λ n k. (none, some n);
  patch_status = λ n before k. (none, some n);
}

abbrev router_world : World Account (Option Router)
router_world = record { cloud = account; cluster = some router }

abbrev old_router : Upcloud.Router
old_router = record {
  uuid = "rtr-0002";
  name = "old";
  labels = [];
  static_routes = [];
  attached_networks = [];
}

abbrev router_in : Result Err Upcloud.Router → Upcloud.Router
router_in (ok rt) = rt
router_in (err e) = old_router

router-IsRepairable :
    IsRepairable library library-IsLibrary router_client intervals finalizer "default" "edge" api
      (router_store problem_text)
      router
      router_world
unfolding library router_store upcloud_operator.Prelude.lookup
    upcloud_operator.Fake.Network.create_router upcloud_operator.Fake.Network.create_network
    upcloud_operator.Networking.RouterAdapter.same_settings
    upcloud_operator.Networking.Types.external_name upcloud_operator.Fake.Network.modify_router
    upcloud_operator.Fake.Network.get_router_details modify_request
router-IsRepairable = record {
  live = record { live = refl; held = refl };
  found = refl;
  known = refl;
  old = old_router;
  held = refl;
  named = refl;
  drift = refl;
  new =
      router_in
        (api.modify_router (modify_request (with_found router old_router))
          (api.get_router_details "rtr-0002" account).1).0;
  answer = refl;
}

router_pass_quiet :
    (reconcile library router_object router_client intervals
      (router_adapter api)
      finalizer
      "default"
      "edge"
      router_world).0.error
    ≡ none
unfolding library upcloud_operator.Fake.Network.get_router_details reconcile
    upcloud_operator.Networking.RouterAdapter.observe
    upcloud_operator.Networking.RouterAdapter.lookup upcloud_operator.Fake.Network.create_router
    upcloud_operator.Fake.Network.create_network
    upcloud_operator.Networking.RouterAdapter.same_settings
    upcloud_operator.Networking.Types.external_name upcloud_operator.Networking.RouterAdapter.update
    upcloud_operator.Fake.Network.modify_router modify_request
router_pass_quiet = refl

reconcile-router_settles_example :
    HasSettled library library-IsLibrary router_client intervals finalizer "default" "edge" api
      (router_store problem_text)
      router
      old_router
      router_world
unfolding router-IsRepairable
reconcile-router_settles_example =
    reconcile-router_settles library library-IsLibrary router_client intervals finalizer "default"
      "edge" api (router_store problem_text) router router_world router-IsRepairable
      (λ before patched k found same quiet. refl) router_pass_quiet
