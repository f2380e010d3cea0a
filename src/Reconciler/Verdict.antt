-- ===== src/Reconciler/Verdict.antt =====
-- What a pass over a live object writes into the Ready condition.
use upcloud_operator.Prelude.{
  ◌≡◌, refl, ◌⊎◌, inl, inr, Bool, false, ◌&&◌, Result, ok, err, Bool-cases,
}
use upcloud_operator.Errors.{Err, pending, dependency_not_ready, errors_is, error_text}
use upcloud_operator.Kube.{
  condition_true, condition_false, Library, IsLibrary, Object, IsObject, Client,
}
use upcloud_operator.Effects.{World, Call}
use upcloud_operator.Reconciler.Conditions.{
  available, creating, updating, pending_reason, waiting_for_dependency, observe_failed,
  create_failed, update_failed,
}
use upcloud_operator.Reconciler.Options.{Intervals}
use upcloud_operator.Reconciler.Steps.{EndsPatched, settle-EndsPatched, fail-EndsPatched}
use upcloud_operator.Reconciler.{
  Observation, Adapter, Step, after_create, after_update, after_observe, reconcile_normal,
}

-- The external resource is there, as specified and usable.
abbrev pub is_healthy : Result Err Observation → Bool
is_healthy (ok obs) = obs.exists && (obs.up_to_date && obs.ready)
is_healthy (err e) = false

module _ (L : Library) (isL : IsLibrary L) {T C K : Type 0} (O : Object T) (isO : IsObject O)
    (client : Client T K) (r : Intervals) (adapter : Adapter T (World C K)) where
  abbrev Ends : T → Call T (World C K) → Bool → Step C K → Type 0
  Ends before s healthy step = EndsPatched L isL O isO client before s.obj s.world healthy step

  after_create-verdict :
      (before : T) (m : Result Err (Unit {0}) × Call T (World C K))
      → Ends before m.1 false (after_create L O client r adapter before m)
  unfolding after_create
  after_create-verdict before (ok _, s) =
      settle-EndsPatched L isL O isO client r.pending_requeue condition_false creating
        "create request accepted" s.obj before s.world
  after_create-verdict before (err e, s) =
      fail-EndsPatched L isL O isO client s.obj before create_failed e s.world

  after_update-verdict :
      (before : T) (m : Result Err (Unit {0}) × Call T (World C K))
      → Ends before m.1 false (after_update L O client r adapter before m)
  unfolding after_update
  after_update-verdict before (ok _, s) =
      settle-EndsPatched L isL O isO client r.pending_requeue condition_false updating
        "update request accepted" s.obj before s.world
  after_update-verdict before (err e, s) = elim (Bool-cases (errors_is pending e)) [
    | inl h ↦ rw h (
        settle-EndsPatched L isL O isO client r.pending_requeue condition_false pending_reason
          (error_text e) s.obj before s.world)
    | inr g ↦ elim (Bool-cases (errors_is dependency_not_ready e)) [
      | inl h ↦
          rw (g, h)
            (settle-EndsPatched L isL O isO client r.pending_requeue condition_false
              waiting_for_dependency (error_text e) s.obj before s.world)
      | inr h ↦ rw (g, h) (fail-EndsPatched L isL O isO client s.obj before update_failed e s.world)
    ]
  ]

  -- The call that the pass patches: the observation's, or that of the change that follows it.
  abbrev pub Follows : Call T (World C K) → Call T (World C K) → Type 0
  Follows s s' = (s' ≡ s) ⊎ (s' ≡ (adapter.create s).1) ⊎ (s' ≡ (adapter.update s).1)

  -- What the pass did after the observation `m`.
  abbrev pub HasVerdict : T → Result Err Observation × Call T (World C K) → Step C K → Type 0
  HasVerdict before m step =
      (s : Call T (World C K)) × Follows m.1 s × Ends before s (is_healthy m.0) step

  after_observe-verdict :
      (before : T) (m : Result Err Observation × Call T (World C K))
      → HasVerdict before m (after_observe L O client r adapter before m)
  unfolding after_observe
  after_observe-verdict before (err e, s) = elim (Bool-cases (errors_is dependency_not_ready e)) [
    | inl h ↦ (
      s,
      inl refl,
      rw h (
          settle-EndsPatched L isL O isO client r.dependency_requeue condition_false
            waiting_for_dependency (error_text e) s.obj before s.world),
    )
    | inr h ↦ (
      s,
      inl refl,
      rw h (fail-EndsPatched L isL O isO client s.obj before observe_failed e s.world),
    )
  ]
  after_observe-verdict before (ok obs, s) = elim (Bool-cases obs.exists) [
    | inr h ↦ (
      (adapter.create s).1,
      inr (inl refl),
      rw h (after_create-verdict before (adapter.create s)),
    )
    | inl h ↦ elim (Bool-cases obs.up_to_date) [
      | inr g ↦ (
        (adapter.update s).1,
        inr (inr refl),
        rw (h, g) (after_update-verdict before (adapter.update s)),
      )
      | inl g ↦ elim (Bool-cases obs.ready) [
        | inr f ↦ (
          s,
          inl refl,
          rw (h, g, f)
              (settle-EndsPatched L isL O isO client r.pending_requeue condition_false
                pending_reason obs.message s.obj before s.world),
        )
        | inl f ↦ (
          s,
          inl refl,
          rw (h, g, f)
              (settle-EndsPatched L isL O isO client r.steady_requeue condition_true available
                obs.message s.obj before s.world),
        )
      ]
    ]
  ]

  -- A pass over a live object ends with one status patch, of an object whose Ready condition is
  -- true exactly if the adapter observed, without an error, a resource that exists, is up to date
  -- and is ready. The patched object has the metadata that the adapter's last method left, and the
  -- UpCloud side is as that method left it.
  pub reconcile_normal-verdict :
      (obj : T) (w : World C K)
      → HasVerdict obj
          (adapter.observe (record { obj = obj; world = w }))
          (reconcile_normal L O client r adapter obj w)
  unfolding reconcile_normal
  reconcile_normal-verdict obj w =
      after_observe-verdict obj (adapter.observe (record { obj = obj; world = w }))
