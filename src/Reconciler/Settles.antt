-- ===== src/Reconciler/Settles.antt =====
-- Two passes of the loop: one that changes a resource that drifted, and the one after it.
use upcloud_operator.Prelude.{
  String, ◌≡◌, refl, sym, ap, subst, ◌∙◌, true, false, List, ok, err, arith, Result,
}
use upcloud_operator.Kube.{
  is_zero_time, condition_true, condition_false, Condition, Library, IsLibrary, Object, IsObject,
  Client,
}
use upcloud_operator.Errors.{Err}
use upcloud_operator.Effects.{World, Call}
use upcloud_operator.Reconciler.Conditions.{available, updating, set_ready}
use upcloud_operator.Reconciler.Options.{Intervals, defaults}
use upcloud_operator.Reconciler.Steps.{EndsPatched, meta-set_ready, settle-EndsPatched}
use upcloud_operator.Reconciler.Verdict.{is_healthy}
use upcloud_operator.Reconciler.{
  Observation, Adapter, Step, after_observe, after_update, settle, patch_status, reconcile_normal,
  reconcile_object, reconcile,
}

module _ (L : Library) (isL : IsLibrary L) {T C K : Type 0} (O : Object T) (isO : IsObject O)
    (client : Client T K) (r : Intervals) (adapter : Adapter T (World C K))
    (finalizer namespace name : String) where
  -- The pass over this object, in this world, ends with a status patch of the object as Observe
  -- leaves it, which is Ready.
  abbrev pub EndsReady : T → World C K → Step C K → Type 0
  EndsReady obj w step =
      let s = (adapter.observe (record { obj = obj; world = w })).1 in
      EndsPatched L isL O isO client obj s.obj s.world true step

  -- The object is neither deleted nor without the finalizer.
  pub record IsLive (obj : T) : Type 0 where
    pub live : is_zero_time (O.meta obj).deletion_timestamp ≡ true
    pub held : L.contains_finalizer (O.meta obj).finalizers finalizer ≡ true

  -- The object as a pass leaves it after an update.
  abbrev pub updated : T → T
  updated obj = set_ready L O obj condition_false updating "update request accepted"

  -- A pass in which the adapter saw drift, before `s₁`, and repaired it, before `s₂`.
  pub record Repairs (obj : T) (w : World C K) (s₁ s₂ : Call T (World C K)) : Type 0 where
    pub seen : Observation
    pub observed : adapter.observe (record { obj = obj; world = w }) ≡ (ok seen, s₁)
    pub there : seen.exists ≡ true
    pub drift : seen.up_to_date ≡ false
    pub changed : adapter.update s₁ ≡ (ok tt, s₂)
    pub kept : O.meta s₂.obj ≡ O.meta obj

  live_pass :
      (obj : T) (w : World C K)
      → IsLive obj
      → client.get w.cluster namespace name ≡ ok obj
      → reconcile L O client r adapter finalizer namespace name w
        ≡ reconcile_normal L O client (defaults r) adapter obj w
  unfolding reconcile reconcile_object
  live_pass obj w isLive found = simp (reconcile, reconcile_object, found, isLive.live, isLive.held)

  repairing_pass :
      (obj : T) (w : World C K) (s₁ s₂ : Call T (World C K))
      → Repairs obj w s₁ s₂
      → reconcile_normal L O client (defaults r) adapter obj w ≡ (
        record {
          requeue_after = (defaults r).pending_requeue;
          error = (client.patch_status (updated s₂.obj) obj s₂.world.cluster).0;
        },
        record (s₂.world) {
          cluster = (client.patch_status (updated s₂.obj) obj s₂.world.cluster).1;
        },
      )
  unfolding reconcile_normal after_observe after_update settle patch_status
  repairing_pass obj w s₁ s₂ p = rw (p.observed, p.there, p.drift, p.changed) refl

  healthy_after :
      (before : T) (m : Result Err Observation × Call T (World C K))
      → is_healthy m.0 ≡ true
      → EndsPatched L isL O isO client before m.1.obj m.1.world true
          (after_observe L O client (defaults r) adapter before m)
  unfolding after_observe
  healthy_after before (err e, s) healthy = cc
  healthy_after before (ok seen, s) healthy =
      let there : seen.exists ≡ true = ground (arith, healthy) in
      let fresh : seen.up_to_date ≡ true = ground (arith, healthy) in
      let usable : seen.ready ≡ true = ground (arith, healthy) in
      rw (there, fresh, usable)
        (settle-EndsPatched L isL O isO client (defaults r).steady_requeue condition_true available
          seen.message s.obj before s.world)

  healthy_pass :
      (obj : T) (w : World C K)
      → is_healthy (adapter.observe (record { obj = obj; world = w })).0 ≡ true
      → EndsReady obj w (reconcile_normal L O client (defaults r) adapter obj w)
  unfolding reconcile_normal
  healthy_pass obj w healthy =
      healthy_after obj (adapter.observe (record { obj = obj; world = w })) healthy

  pub first_pass :
      (obj : T) (w : World C K) (s₁ s₂ : Call T (World C K))
      → IsLive obj
      → client.get w.cluster namespace name ≡ ok obj
      → Repairs obj w s₁ s₂
      → reconcile L O client r adapter finalizer namespace name w ≡ (
        record {
          requeue_after = (defaults r).pending_requeue;
          error = (client.patch_status (updated s₂.obj) obj s₂.world.cluster).0;
        },
        record (s₂.world) {
          cluster = (client.patch_status (updated s₂.obj) obj s₂.world.cluster).1;
        },
      )
  first_pass obj w s₁ s₂ isLive found repairs =
      live_pass obj w isLive found ∙ repairing_pass obj w s₁ s₂ repairs

  -- If a pass over a live object saw drift and repaired it, the API server then returns what the
  -- pass patched, and the adapter finds what it repaired healthy whatever the conditions of the
  -- object are, then the next pass ends with a status patch of that object, as Observe leaves it,
  -- which is Ready.
  pub reconcile-settles :
      (obj : T) (w : World C K) (s₁ s₂ : Call T (World C K))
      → IsLive obj
      → client.get w.cluster namespace name ≡ ok obj
      → Repairs obj w s₁ s₂
      → client.get (client.patch_status (updated s₂.obj) obj s₂.world.cluster).1 namespace name
        ≡ ok (updated s₂.obj)
      → ((cs : List Condition) (k : K)
          → is_healthy
              (adapter.observe (record {
                obj = O.set_conditions s₂.obj cs;
                world = record (s₂.world) { cluster = k };
              })).0
            ≡ true)
      → EndsReady (updated s₂.obj) (reconcile L O client r adapter finalizer namespace name w).1 (
          reconcile L O client r adapter finalizer namespace name
            (reconcile L O client r adapter finalizer namespace name w).1)
  unfolding set_ready
  reconcile-settles obj w s₁ s₂ isLive found repairs served healthy =
      let o = updated s₂.obj in
      let k = (client.patch_status o obj s₂.world.cluster).1 in
      let w₂ = record (s₂.world) { cluster = k } in
      let same : O.meta o ≡ O.meta obj =
        meta-set_ready L isL O isO s₂.obj condition_false updating "update request accepted"
        ∙ repairs.kept in
      let first = ap (λ (s : Step C K). s.1) (first_pass obj w s₁ s₂ isLive found repairs) in
      let again : IsLive o = record {
        live = ap (λ m. is_zero_time m.deletion_timestamp) same ∙ isLive.live;
        held = ap (λ m. L.contains_finalizer m.finalizers finalizer) same ∙ isLive.held;
      } in
      let second : EndsReady o w₂ (reconcile L O client r adapter finalizer namespace name w₂) =
        subst (EndsReady o w₂) (sym (live_pass o w₂ again served))
          (healthy_pass o w₂ (healthy _ k)) in
      subst (λ v. EndsReady o v (reconcile L O client r adapter finalizer namespace name v))
        (sym first) second
