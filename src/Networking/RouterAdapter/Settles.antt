-- ===== src/Networking/RouterAdapter/Settles.antt =====
-- The reconcile loop with the router adapter: a router that drifted is Ready after two passes.
use upcloud_operator.Prelude.{String, ◌≡◌, refl, sym, ap, ◌∙◌, ◌==◌, true, false, none, some, ok}
use upcloud_operator.Kube.{Library, IsLibrary, Client, condition_false}
use upcloud_operator.Effects.{World, Call}
use upcloud_operator.Reconciler.{reconcile, Adapter, Step}
use upcloud_operator.Reconciler.Conditions.{set_ready, updating}
use upcloud_operator.Reconciler.Options.{Intervals}
use upcloud_operator.Reconciler.Verdict.{is_healthy}
use upcloud_operator.Reconciler.Settles.{EndsReady, IsLive, Repairs, first_pass, reconcile-settles}
use upcloud_operator.Networking.Types.{Router, router_object, router_object-IsObject}
use upcloud_operator.Networking.Upcloud
use upcloud_operator.Networking.Upcloud.{NetworkApi}
use upcloud_operator.Networking.RouterStore.{IsRouterStore}
use upcloud_operator.Networking.RouterAdapter.{
  same_settings, modify_request, with_found, observe, update, lookup, router_adapter,
}
use upcloud_operator.Networking.RouterAdapter.Converges.{modified-same_settings, observe-settled}

module _ {C K : Type 0} (L : Library) (isL : IsLibrary L) (client : Client Router K) (r : Intervals)
    (finalizer namespace name : String) (api : NetworkApi C) (S : IsRouterStore api) where
  abbrev adapter : Adapter Router (World C K)
  adapter = router_adapter api

  -- A live router in the cluster, which drifted in the account, where a change of it succeeds.
  pub record IsRepairable (obj : Router) (w : World C K) : Type 0 where
    pub live :
        IsLive L isL router_object router_object-IsObject client r adapter finalizer namespace name
          obj
    pub found : client.get w.cluster namespace name ≡ ok obj
    pub known : (obj.status.uuid == "") ≡ false
    pub old : Upcloud.Router
    pub held : S.router w.cloud obj.status.uuid ≡ some old
    pub named : (old.uuid == "") ≡ false
    pub drift : same_settings obj old ≡ false
    pub new : Upcloud.Router
    pub answer :
        (api.modify_router
          (modify_request (with_found obj old))
          (api.get_router_details obj.status.uuid w.cloud).1).0
        ≡ ok new

  module _ (obj : Router) (w : World C K) (R : IsRepairable obj w) where
    abbrev seen_call : Call Router (World C K)
    seen_call = record {
      obj = with_found obj R.old;
      world = record w { cloud = (api.get_router_details obj.status.uuid w.cloud).1 };
    }

    abbrev changed_call : Call Router (World C K)
    changed_call = record seen_call {
      world = record w {
        cloud = (api.modify_router (modify_request seen_call.obj) seen_call.world.cloud).1;
      };
    }

    repairs :
        Repairs L isL router_object router_object-IsObject client r adapter finalizer namespace name
          obj w seen_call changed_call
    unfolding observe update lookup
    repairs = record {
      seen = record { exists = true; up_to_date = false; ready = true; message = "" };
      observed = rw (R.known, S.get-found obj.status.uuid w.cloud R.old R.held, R.drift) refl;
      there = refl;
      drift = refl;
      changed = rw R.answer refl;
      kept = refl;
    }

  -- What the passes rely on of the API server: after a status patch without an error of an object
  -- that it returned, it returns the object with the status that was patched.
  abbrev pub Serves : Type 0
  Serves =
      (before patched : Router) (k : K)
      → client.get k namespace name ≡ ok before
      → patched ≡ record before { status = patched.status }
      → (client.patch_status patched before k).0 ≡ none
      → client.get (client.patch_status patched before k).1 namespace name ≡ ok patched

  -- The first pass, over `obj`, changed the router of the account to the settings of the spec; the
  -- API server then returns `served`, which is `obj` but for its status, and the second pass ends
  -- with a status patch of it, as Observe leaves it, which is Ready.
  pub record HasSettled (obj : Router) (old : Upcloud.Router) (w : World C K) : Type 0 where
    pub served : Router
    pub read :
        client.get
          (reconcile L router_object client r adapter finalizer namespace name w).1.cluster
          namespace
          name
        ≡ ok served
    pub same : served ≡ record obj { status = served.status }
    pub new : Upcloud.Router
    pub held :
        S.router
          (reconcile L router_object client r adapter finalizer namespace name w).1.cloud
          old.uuid
        ≡ some new
    pub repaired : same_settings obj new ≡ true
    pub ready :
        EndsReady L isL router_object router_object-IsObject client r adapter finalizer namespace
          name served
          (reconcile L router_object client r adapter finalizer namespace name w).1
          (reconcile L router_object client r adapter finalizer namespace name
            (reconcile L router_object client r adapter finalizer namespace name w).1)

  -- If a router is live and has drifted in the account, a change of it succeeds, the API server
  -- returns what was patched without an error, and the first of two passes ends without an error,
  -- then after it the router of the account has the settings of the spec, the router that the API
  -- server returns differs only in its status, and the second pass ends with a status patch of it
  -- that says Ready.
  pub reconcile-router_settles :
      (obj : Router) (w : World C K) (R : IsRepairable obj w)
      → Serves
      → (reconcile L router_object client r adapter finalizer namespace name w).0.error ≡ none
      → HasSettled obj R.old w
  unfolding same_settings modify_request set_ready
  reconcile-router_settles obj w R serves quiet =
      let q = modify_request (with_found obj R.old) in
      let c = (api.get_router_details obj.status.uuid w.cloud).1 in
      let (old, held) = S.modify-existing q c R.new R.answer in
      let new = S.modified q c old in
      let fits =
        modified-same_settings (with_found obj R.old) old new (S.modified-IsModified q c old) in
      let now = S.modify-applies q c old R.new held R.answer in
      let o =
        set_ready L router_object (with_found obj R.old) condition_false updating
          "update request accepted" in
      let first =
        first_pass L isL router_object router_object-IsObject client r adapter finalizer namespace
          name obj w (seen_call obj w R) (changed_call obj w R) R.live R.found (repairs obj w R) in
      let read = serves obj o w.cluster R.found refl (sym (ap (λ s. s.0.error) first) ∙ quiet) in
      record {
        served = o;
        read = ap (λ (s : Step C K). client.get s.1.cluster namespace name) first ∙ read;
        same = refl;
        new = new;
        held = ap (λ (s : Step C K). S.router s.1.cloud R.old.uuid) first ∙ now;
        repaired = fits;
        ready =
            reconcile-settles L isL router_object router_object-IsObject client r adapter finalizer
              namespace name obj w (seen_call obj w R) (changed_call obj w R) R.live R.found
              (repairs obj w R) read
              (λ cs k. ap is_healthy (observe-settled api S _ new R.named now fits));
      }
