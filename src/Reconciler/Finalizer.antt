-- ===== src/Reconciler/Finalizer.antt =====
-- The finalizer protocol: no change of the UpCloud account without the finalizer, and no end of the
-- finalizer without a deletion.
use upcloud_operator.Prelude.{
  String, ◌≡◌, refl, sym, ap, ◌∙◌, inl, inr, true, false, not, none, ◌==◌, ok, err, Bool-cases,
  eq_refl, if◌then◌else◌,
}
use upcloud_operator.Errors.{Err, pending, errors_is, error_text}
use upcloud_operator.Kube.{
  is_zero_time, policy_orphan, condition_false, Library, IsLibrary, Object, IsObject, Client,
}
use upcloud_operator.Effects.{World, Call}
use upcloud_operator.Reconciler.Conditions.{deleting, delete_failed}
use upcloud_operator.Reconciler.Options.{Intervals, defaults}
use upcloud_operator.Reconciler.Steps.{EndsPatched, settle-EndsPatched, fail-EndsPatched}
use upcloud_operator.Reconciler.{
  Adapter, Step, update_object, remove_finalizer, add_finalizer, after_delete, reconcile_delete,
  reconcile_object, reconcile,
}

module _ {T C K : Type 0} (L : Library) (O : Object T) (client : Client T K) where
  update_object-cloud :
      (obj : T) (w : World C K) → (update_object L O client obj w).1.cloud ≡ w.cloud
  unfolding update_object
  update_object-cloud obj w = refl

  -- A pass over an object without the finalizer leaves the UpCloud account as it is, whether the
  -- object is being deleted or not and whatever the adapter would do.
  pub reconcile-cloud_unguarded :
      (r : Intervals) (adapter : Adapter T (World C K)) (finalizer namespace name : String)
      (w : World C K) (obj : T)
      → client.get w.cluster namespace name ≡ ok obj
      → L.contains_finalizer (O.meta obj).finalizers finalizer ≡ false
      → (reconcile L O client r adapter finalizer namespace name w).1.cloud ≡ w.cloud
  unfolding reconcile
  reconcile-cloud_unguarded r adapter finalizer namespace name w obj found bare =
      elim (Bool-cases (is_zero_time (O.meta obj).deletion_timestamp)) [
        | inl live ↦
            simp (reconcile, reconcile_object, add_finalizer, update_object, found, live, bare)
        | inr gone ↦ simp (reconcile, reconcile_object, reconcile_delete, found, gone, bare)
      ]

module _ {T C K : Type 0} (L : Library) (isL : IsLibrary L) (O : Object T) (isO : IsObject O)
    (client : Client T K) where
  -- The pass ends by writing the object that `s` holds without the finalizer: the finalizers of
  -- others stay, and so does everything else of the object.
  pub record EndsReleased (finalizer : String) (s : Call T (World C K)) (step : Step C K)
      : Type 0 where
    pub released : T
    pub cluster : step.1.cluster ≡ (client.update released s.world.cluster).1
    pub cloud : step.1.cloud ≡ s.world.cloud
    pub error : step.0.error ≡ (client.update released s.world.cluster).0
    pub without : L.contains_finalizer (O.meta released).finalizers finalizer ≡ false
    pub others :
        (g : String)
        → (finalizer == g) ≡ false
        → L.contains_finalizer (O.meta released).finalizers g
          ≡ L.contains_finalizer (O.meta s.obj).finalizers g
    pub metadata :
        O.meta released ≡ record (O.meta s.obj) { finalizers = (O.meta released).finalizers }
    pub rest : released ≡ O.with_meta (s.obj) (O.meta released)

  remove_finalizer-EndsReleased :
      (r : Intervals) (adapter : Adapter T (World C K)) (finalizer : String)
      (s : Call T (World C K))
      → EndsReleased finalizer s (remove_finalizer L O client r adapter finalizer s.obj s.world)
  unfolding remove_finalizer
  remove_finalizer-EndsReleased r adapter finalizer s = record {
    released = O.with_meta (s.obj) (record (O.meta s.obj) {
      finalizers = L.remove_finalizer (O.meta s.obj).finalizers finalizer;
    });
    cluster = refl;
    cloud = refl;
    error = refl;
    without = simp (isO.meta-with_meta, isL.contains-remove, eq_refl);
    others = λ g other. simp (isO.meta-with_meta, isL.contains-remove, other);
    metadata =
        isO.meta-with_meta _ _
        ∙ sym (
            ap (λ m. record (O.meta s.obj) { finalizers = m.finalizers }) (isO.meta-with_meta _ _));
    rest = sym (ap (O.with_meta (s.obj)) (isO.meta-with_meta _ _));
  }

  -- The pass ends with a status patch of an object that is not Ready and has the metadata that
  -- Delete left, finalizers included. It returns no error only if Delete reported an operation in
  -- progress, and then the object is queued again after the interval for pending operations.
  pub record StaysDeleting (r : Intervals) (before : T) (e : Err) (s : Call T (World C K))
      (step : Step C K) : Type 0 where
    pub patches : EndsPatched L isL O isO client before s.obj s.world false step
    pub quiet : step.0.error ≡ none → errors_is pending e ≡ true
    pub queued : errors_is pending e ≡ true → step.0.requeue_after ≡ r.pending_requeue

  after_delete-failed :
      (r : Intervals) (adapter : Adapter T (World C K)) (finalizer : String) (before : T) (e : Err)
      (s : Call T (World C K))
      → StaysDeleting r before e s (after_delete L O client r adapter finalizer before (err e, s))
  unfolding after_delete
  after_delete-failed r adapter finalizer before e s = elim (Bool-cases (errors_is pending e)) [
    | inl h ↦ rw h (record {
      patches =
          settle-EndsPatched L isL O isO client r.pending_requeue condition_false deleting
            (error_text e) s.obj before s.world;
      quiet = λ _. h;
      queued = λ _. refl;
    })
    | inr h ↦ rw h (record {
      patches = fail-EndsPatched L isL O isO client s.obj before delete_failed e s.world;
      quiet = λ k. cc;
      queued = λ k. cc;
    })
  ]

  -- What `Reconcile` was called for: an object that is being deleted and carries the finalizer.
  pub record IsDeleting (finalizer namespace name : String) (w : World C K) (obj : T) : Type 0 where
    pub found : client.get w.cluster namespace name ≡ ok obj
    pub deleted : is_zero_time (O.meta obj).deletion_timestamp ≡ false
    pub held : L.contains_finalizer (O.meta obj).finalizers finalizer ≡ true

  module _ (r : Intervals) (adapter : Adapter T (World C K)) (finalizer namespace name : String)
      (w : World C K) (obj : T) (d : IsDeleting finalizer namespace name w obj) where
    reconcile_deleting : reconcile L O client r adapter finalizer namespace name w ≡ (
        if not (O.get_deletion_policy obj == policy_orphan)
        then after_delete L O client
            (defaults r)
            adapter
            finalizer
            obj
            (adapter.delete (record { obj = obj; world = w }))
        else remove_finalizer L O client (defaults r) adapter finalizer obj w)
    unfolding reconcile
    reconcile_deleting =
        simp (reconcile, reconcile_object, reconcile_delete, d.found, d.deleted, d.held)

    -- Under the policy Orphan the pass ends by writing the object as it was, without the finalizer
    -- and with the finalizers of others, and the UpCloud account stays as it is, whatever the
    -- adapter would do.
    pub reconcile-orphan :
        O.get_deletion_policy obj ≡ policy_orphan
        → EndsReleased finalizer
            (record { obj = obj; world = w })
            (reconcile L O client r adapter finalizer namespace name w)
    reconcile-orphan policy =
        rw (reconcile_deleting, policy)
          (remove_finalizer-EndsReleased (defaults r) adapter finalizer
            (record { obj = obj; world = w }))

    -- Under any other policy, while the adapter's Delete fails, the pass ends with a status patch
    -- of an object that is not Ready and has the metadata that Delete left, finalizers included. It
    -- returns no error only if Delete reported an operation in progress, and then the object is
    -- queued again after the interval for pending operations.
    pub reconcile-delete_failed :
        {e : Err} (s : Call T (World C K))
        → (O.get_deletion_policy obj == policy_orphan) ≡ false
        → adapter.delete (record { obj = obj; world = w }) ≡ (err e, s)
        → StaysDeleting
            (defaults r)
            obj
            e
            s
            (reconcile L O client r adapter finalizer namespace name w)
    reconcile-delete_failed {e} s policy result =
        rw (reconcile_deleting, policy, result)
          (after_delete-failed (defaults r) adapter finalizer obj e s)

    -- Under any other policy, once the adapter's Delete succeeds, the pass ends by writing the object
    -- as Delete left it, without the finalizer and with the finalizers of others.
    pub reconcile-delete_done :
        (s : Call T (World C K))
        → (O.get_deletion_policy obj == policy_orphan) ≡ false
        → adapter.delete (record { obj = obj; world = w }) ≡ (ok tt, s)
        → EndsReleased finalizer s (reconcile L O client r adapter finalizer namespace name w)
    unfolding after_delete
    reconcile-delete_done s policy result =
        rw (reconcile_deleting, policy, result)
          (remove_finalizer-EndsReleased (defaults r) adapter finalizer s)
