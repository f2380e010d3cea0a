-- ===== src/Reconciler/Reports.antt =====
-- Which errors of an adapter a pass returns.
use upcloud_operator.Prelude.{
  ◌≡◌, refl, Bool, true, false, not, ◌||◌, Option, none, some, Result, ok, err, error_of, arith,
  if◌then◌else◌, Bool-cases, inl, inr,
}
use mathlib.Core.Path.{subst}
use mathlib.Core.Option.{some-injective}
use upcloud_operator.Reconciler.Conditions.{
  Reason, create_failed, update_failed, observe_failed, set_ready,
}
use upcloud_operator.Errors.{error_text, Err, pending, dependency_not_ready, errors_is, errors_join}
use upcloud_operator.Kube.{condition_false, Library, Object, Client}
use upcloud_operator.Effects.{World, Call}
use upcloud_operator.Reconciler.Options.{Intervals}
use upcloud_operator.Reconciler.{
  Observation, Adapter, fail, after_create, after_update, after_observe, reconcile_normal,
}

module _ {T C K : Type 0} (adapter : Adapter T (World C K)) where
  -- The error that the adapter's methods meet in a pass, if any.
  abbrev pub met_after : Result Err Observation × Call T (World C K) → Option Err
  met_after (err e, s) = some e
  met_after (ok obs, s) =
      if not obs.exists
      then error_of (adapter.create s).0
      else if not obs.up_to_date
      then error_of (adapter.update s).0
      else none

-- Neither sentinel is in the error.
abbrev pub is_hard : Err → Bool
is_hard e = not (errors_is pending e || errors_is dependency_not_ready e)

is_hard-not_pending : (e : Err) → is_hard e ≡ true → errors_is pending e ≡ false
is_hard-not_pending e h = ground arith

is_hard-not_dependency : (e : Err) → is_hard e ≡ true → errors_is dependency_not_ready e ≡ false
is_hard-not_dependency e h = ground arith

none_is_not-some : {e : Err} → none ≡ some e → ⊥
none_is_not-some h = cc

-- The reported error is `e`, joined with what the status patch met.
abbrev pub Reports : Err → Option Err → Type 0
Reports e o = (d : Option Err) × (o ≡ some (errors_join e d))

-- To report an error is to report one that equals it.
Reports-some :
    {e f : Err} (o : Option Err)
    → some f ≡ some e
    → (is_hard f ≡ true → Reports f o)
    → is_hard e ≡ true
    → Reports e o
Reports-some o h = subst (λ x. is_hard x ≡ true → Reports x o) (some-injective _ _ h)

module _ {T C K : Type 0} (L : Library) (O : Object T) (client : Client T K) (r : Intervals)
    (adapter : Adapter T (World C K)) where
  fail-Reports :
      (obj before : T) (reason : Reason) (e : Err) (w : World C K)
      → Reports e (fail L O client obj before reason e w).0.error
  unfolding fail
  fail-Reports obj before reason e w =
      let failed = set_ready L O obj condition_false reason (error_text e) in
      ((client.patch_status failed before w.cluster).0, refl)

  after_create-Reports :
      (before : T) (e : Err) (m : Result Err (Unit {0}) × Call T (World C K))
      → is_hard e ≡ true
      → error_of m.0 ≡ some e
      → Reports e (after_create L O client r adapter before m).0.error
  unfolding after_create
  after_create-Reports before e (ok _, s) hard h = cc
  after_create-Reports before e (err f, s) hard h =
      Reports-some _ h (λ _. fail-Reports s.obj before create_failed f s.world) hard

  after_update-Reports :
      (before : T) (e : Err) (m : Result Err (Unit {0}) × Call T (World C K))
      → is_hard e ≡ true
      → error_of m.0 ≡ some e
      → Reports e (after_update L O client r adapter before m).0.error
  unfolding after_update
  after_update-Reports before e (ok _, s) hard h = cc
  after_update-Reports before e (err f, s) hard h =
      Reports-some _ h
        (λ k.
          rw (is_hard-not_pending f k, is_hard-not_dependency f k)
            (fail-Reports s.obj before update_failed f s.world))
        hard

  after_observe-Reports :
      (before : T) (e : Err) (m : Result Err Observation × Call T (World C K))
      → is_hard e ≡ true
      → met_after adapter m ≡ some e
      → Reports e (after_observe L O client r adapter before m).0.error
  unfolding after_observe
  after_observe-Reports before e (err f, s) hard h =
      Reports-some _ h
        (λ k. rw (is_hard-not_dependency f k) (fail-Reports s.obj before observe_failed f s.world))
        hard
  after_observe-Reports before e (ok obs, s) hard h = elim (Bool-cases obs.exists) [
    | inr p ↦ rw p (after_create-Reports before e (adapter.create s) hard (rw p at h))
    | inl p ↦ elim (Bool-cases obs.up_to_date) [
      | inr q ↦ rw (p, q) (after_update-Reports before e (adapter.update s) hard (rw (p, q) at h))
      | inl q ↦ absurd (none_is_not-some (rw (p, q) at h))
    ]
  ]

  -- An error that the adapter's methods meet in a pass over a live object, and that is neither about
  -- a dependency nor about an operation in progress, is what the pass returns, joined with the
  -- error of the status patch if there is one.
  pub reconcile_normal-Reports :
      (obj : T) (w : World C K) (e : Err)
      → is_hard e ≡ true
      → met_after adapter (adapter.observe (record { obj = obj; world = w })) ≡ some e
      → Reports e (reconcile_normal L O client r adapter obj w).0.error
  unfolding reconcile_normal
  reconcile_normal-Reports obj w e hard h =
      after_observe-Reports obj e (adapter.observe (record { obj = obj; world = w })) hard h
