-- ===== src/Reconciler/Requeue.antt =====
-- No live object is dropped from the loop, and no error is lost.
use upcloud_operator.Prelude.{String, ◌≡◌, Bool, true, false, none, Result, ok, err, arith}
use upcloud_operator.Errors.{Err}
use upcloud_operator.Kube.{Library, Object, Client, is_zero_time}
use upcloud_operator.Effects.{World, Call}
use upcloud_operator.Reconciler.Options.{
  ℤ, pos, negsuc, is_positive, Intervals, Options, defaults, apply_options,
}
use upcloud_operator.Reconciler.{
  Observation, Adapter, Outcome, after_create, after_update, after_observe, reconcile_normal,
  reconcile_object, reconcile,
}

-- Every interval is above 0.
pub record AllPositive (r : Intervals) : Type 0 where
  pub pending : is_positive r.pending_requeue ≡ true
  pub dependency : is_positive r.dependency_requeue ≡ true
  pub steady : is_positive r.steady_requeue ≡ true

abbrev pub is_negative : ℤ → Bool
is_negative (pos n) = false
is_negative (negsuc n) = true

-- No interval was configured below 0.
pub record NoneNegative (r : Intervals) : Type 0 where
  pub pending : is_negative r.pending_requeue ≡ false
  pub dependency : is_negative r.dependency_requeue ≡ false
  pub steady : is_negative r.steady_requeue ≡ false

-- Where no interval is negative, every interval is above 0 once the defaults are filled in.
pub defaults-AllPositive : (r : Intervals) → NoneNegative r → AllPositive (defaults r)
unfolding defaults
defaults-AllPositive r h = ground arith

-- Options never make an interval negative, whatever they are.
pub apply_options-NoneNegative :
    (r : Intervals) (o : Options) → NoneNegative r → NoneNegative (apply_options r o)
unfolding apply_options
apply_options-NoneNegative r o h = ground arith

-- Filling in the defaults again changes nothing.
pub defaults_idem : (r : Intervals) → defaults (defaults r) ≡ defaults r
unfolding defaults
defaults_idem r = ground arith

-- The outcome asks for another pass: by an interval, or by an error.
abbrev pub Returns : Outcome → Type 0
Returns o = o.error ≡ none → is_positive o.requeue_after ≡ true

module _ {T C K : Type 0} (L : Library) (O : Object T) (client : Client T K) where
  module _ (r : Intervals) (adapter : Adapter T (World C K)) (p : AllPositive r) where
    after_create-Returns :
        (before : T) (m : Result Err (Unit {0}) × Call T (World C K))
        → Returns (after_create L O client r adapter before m).0
    unfolding after_create
    after_create-Returns before (ok _, s) h = p.pending
    after_create-Returns before (err e, s) h = cc

    after_update-Returns :
        (before : T) (m : Result Err (Unit {0}) × Call T (World C K))
        → Returns (after_update L O client r adapter before m).0
    unfolding after_update
    after_update-Returns before (ok _, s) h = p.pending
    after_update-Returns before (err e, s) h = ground arith

    pub after_observe-Returns :
        (before : T) (m : Result Err Observation × Call T (World C K))
        → Returns (after_observe L O client r adapter before m).0
    unfolding after_observe
    after_observe-Returns before (err e, s) = ground arith
    after_observe-Returns before (ok obs, s) = ground (
      arith,
      after_create-Returns before (adapter.create s),
      after_update-Returns before (adapter.update s),
    )

  -- On an object that is there, is not being deleted and carries the finalizer, a pass is
  -- `reconcile_normal` with the defaults filled in.
  pub reconcile_live :
      (r : Intervals) (adapter : Adapter T (World C K)) (finalizer namespace name : String)
      (w : World C K) (obj : T)
      → client.get w.cluster namespace name ≡ ok obj
      → is_zero_time (O.meta obj).deletion_timestamp ≡ true
      → L.contains_finalizer (O.meta obj).finalizers finalizer ≡ true
      → reconcile L O client r adapter finalizer namespace name w
        ≡ reconcile_normal L O client (defaults r) adapter obj w
  unfolding reconcile
  reconcile_live r adapter finalizer namespace name w obj found live held =
      simp (reconcile, reconcile_object, found, live, held)

  -- A pass over an object that is not being deleted and carries the finalizer either reports an
  -- error or asks for the next pass after an interval above 0, if no interval of the reconciler is
  -- negative: a live object is never dropped from the loop.
  pub reconcile-Returns :
      (r : Intervals) (adapter : Adapter T (World C K)) (finalizer namespace name : String)
      (w : World C K) (obj : T)
      → NoneNegative r
      → client.get w.cluster namespace name ≡ ok obj
      → is_zero_time (O.meta obj).deletion_timestamp ≡ true
      → L.contains_finalizer (O.meta obj).finalizers finalizer ≡ true
      → Returns (reconcile L O client r adapter finalizer namespace name w).0
  unfolding reconcile_normal
  reconcile-Returns r adapter finalizer namespace name w obj n found live held =
      rw (reconcile_live r adapter finalizer namespace name w obj found live held) (
        after_observe-Returns (defaults r) adapter (defaults-AllPositive r n) obj
          (adapter.observe (record { obj = obj; world = w })))
