-- ===== src/Reconciler/Steps.antt =====
-- How a pass may end: with a status patch. The lemmas are about the ends that the passes share.
use upcloud_operator.Prelude.{String, ◌≡◌, refl, Bool, false, ◌==◌}
use upcloud_operator.Errors.{Err, error_text}
use upcloud_operator.Kube.{
  condition_true, condition_false, Library, IsLibrary, Object, IsObject, Client,
}
use upcloud_operator.Effects.{World}
use upcloud_operator.Reconciler.Conditions.{Reason, set_ready, is_ready}
use upcloud_operator.Reconciler.Options.{ℤ}
use upcloud_operator.Reconciler.{Step, settle, fail}

module _ (L : Library) (isL : IsLibrary L) {T : Type 0} (O : Object T) (isO : IsObject O) where
  -- SetReady decides what IsReady answers, and leaves the metadata alone.
  pub is_ready-set_ready :
      (obj : T) (status : String) (reason : Reason) (message : String)
      → is_ready L O (set_ready L O obj status reason message) ≡ (status == condition_true)
  unfolding is_ready set_ready
  is_ready-set_ready obj status reason message =
      simp (is_ready, set_ready, isO.get_conditions-set, isL.is_true-set)

  pub meta-set_ready :
      (obj : T) (status : String) (reason : Reason) (message : String)
      → O.meta (set_ready L O obj status reason message) ≡ O.meta obj
  unfolding set_ready
  meta-set_ready obj status reason message = isO.meta-set_conditions _ _

  module _ {C K : Type 0} (client : Client T K) where
    -- The pass ends with one status patch against `before`, of an object with the metadata of
    -- `after` that is Ready exactly if `healthy`. The UpCloud side is as in `w`.
    pub record EndsPatched (before after : T) (w : World C K) (healthy : Bool) (s : Step C K)
        : Type 0 where
      pub patched : T
      pub cluster : s.1.cluster ≡ (client.patch_status patched before w.cluster).1
      pub cloud : s.1.cloud ≡ w.cloud
      pub verdict : is_ready L O patched ≡ healthy
      pub metadata : O.meta patched ≡ O.meta after

    pub settle-EndsPatched :
        (after : ℤ) (status : String) (reason : Reason) (message : String) (obj before : T)
        (w : World C K)
        → EndsPatched before obj w
            (status == condition_true)
            (settle L O client after status reason message obj before w)
    unfolding settle
    settle-EndsPatched after status reason message obj before w = record {
      patched = set_ready L O obj status reason message;
      cluster = refl;
      cloud = refl;
      verdict = is_ready-set_ready obj status reason message;
      metadata = meta-set_ready obj status reason message;
    }

    pub fail-EndsPatched :
        (obj before : T) (reason : Reason) (e : Err) (w : World C K)
        → EndsPatched before obj w false (fail L O client obj before reason e w)
    unfolding fail
    fail-EndsPatched obj before reason e w = record {
      patched = set_ready L O obj condition_false reason (error_text e);
      cluster = refl;
      cloud = refl;
      verdict = is_ready-set_ready obj condition_false reason (error_text e);
      metadata = meta-set_ready obj condition_false reason (error_text e);
    }
