-- ===== src/Storage/BucketAdapter.antt =====
-- internal/controller/objectstorage/objectstoragebucket_adapter.go. The loop of findBucket over the
-- pages has no bound: it runs on fuel here, and Pages says how much is enough.
pub mod Pages
use upcloud_operator.Prelude.{
  ℕ, zero, suc, String, ◌<>◌, Bool, true, not, ◌&&◌, ◌||◌, Option, none, some, List, [], ◌∷◌, ◌==◌,
  if◌then◌else◌, Result, ok, err, ◌+◌,
}
use upcloud_operator.Errors.{Err, sentinel, pending, plain, wrap}
use upcloud_operator.Kube.{Library}
use upcloud_operator.Effects.{
  World, Method, pure, fail_with, ◌>>=◌, ◌>>◌, get_obj, set_obj, wrapping, cloud_call,
}
use upcloud_operator.Reconciler.{Observation, absent, Adapter}
use upcloud_operator.Networking.Upcloud.{ApiCall}
use upcloud_operator.Storage.Types.{Service, Bucket, external_name}
use upcloud_operator.Storage.Upcloud.{BucketApi, BucketMetrics}
use upcloud_operator.Storage.Calls.{or_adopted, removed, HasService, service_uuid}

abbrev pub bucket_page_size : ℕ
bucket_page_size = 100

abbrev pub bucket_service : HasService Bucket
bucket_service = record {
  service_uuid = λ b. b.status.service_uuid;
  namespace = λ b. b.meta.namespace;
  service_ref = λ b. b.spec.service_ref;
  with_service = λ b uuid. record b { status = record (b.status) { service_uuid = uuid } };
}

-- The loop over one page.
unfoldable pub find_named : String → List BucketMetrics → Option BucketMetrics
find_named name [] = none
find_named name (b ∷ list) =
    if b.name == name && not b.deleted then some b else find_named name list

-- What a run of the loop over the pages returns; `none` means that the fuel did not reach its end.
abbrev pub Found : Type 0
Found = Option (Result Err (Option BucketMetrics))

-- The loop over the pages, from the page with this number.
unfoldable pub find_from : {C : Type 0} → BucketApi C → ℕ → String → String → ℕ → C → Found × C
unfolding find_named
find_from api zero service name page c = (none, c)
find_from api (suc fuel) service name page c =
    let (r, c') =
      api.get_bucket_metrics service (record { size = bucket_page_size; number = page }) c in
    elim r [
      | err e ↦ (some (err (wrap "get bucket metrics" e)), c')
      | ok list ↦ elim list [
        | [] ↦ (some (ok none), c')
        | b ∷ bs ↦ elim (find_named name (b ∷ bs)) [
          | some found ↦ (some (ok (some found)), c')
          | none ↦ find_from api fuel service name (suc page) c'
        ]
      ]
    ]

abbrev pub ended : Found → Result Err (Option BucketMetrics)
ended (some r) = r
ended none = err (plain "the loop over the pages is still running")

module _ {C K : Type 0} (L : Library) (fuel : ℕ) (api : BucketApi C)
    (read_service : K → String → String → Result Err Service) where
  -- findBucket
  unfoldable pub find_bucket : String → String → ApiCall C (Option BucketMetrics)
  unfolding find_from
  find_bucket service name c = let (r, c') = find_from api fuel service name 1 c in (ended r, c')

  pub observe_found : Option BucketMetrics → Method Bucket (World C K) Observation
  observe_found none = pure absent
  observe_found (some metrics) = do
    b ← get_obj
    set_obj (record b {
      status = record (b.status) {
        name = metrics.name;
        total_objects = metrics.total_objects;
        total_size_bytes = metrics.total_size_bytes;
      };
    })
    pure (record {
      exists = true;
      up_to_date = true;
      ready = true;
      message = "bucket " <> metrics.name;
    })

  unfoldable pub observe : Method Bucket (World C K) Observation
  unfolding observe_found
  observe = do
    service ← service_uuid L read_service bucket_service
    b ← get_obj
    found ← cloud_call (find_bucket service (external_name b.spec.name b.meta))
    observe_found found

  -- What Create does with the answer: a conflict is an adoption.
  pub created : Option BucketMetrics → Method Bucket (World C K) (Unit {0})
  created none = pure tt
  created (some made) = do
    b ← get_obj
    set_obj (record b { status = record (b.status) { name = made.name } })

  unfoldable pub create : Method Bucket (World C K) (Unit {0})
  unfolding created
  create = do
    service ← service_uuid L read_service bucket_service
    b ← get_obj
    answer ←
        wrapping "create object storage bucket"
          (cloud_call (or_adopted (api.create_bucket (service, external_name b.spec.name b.meta))))
    created answer

  pub update_found : Option BucketMetrics → Method Bucket (World C K) (Unit {0})
  update_found none = fail_with (sentinel pending)
  update_found (some metrics) = pure tt

  unfoldable pub update : Method Bucket (World C K) (Unit {0})
  unfolding update_found
  update = do
    service ← service_uuid L read_service bucket_service
    b ← get_obj
    found ← cloud_call (find_bucket service (external_name b.spec.name b.meta))
    update_found found

  unfoldable pub delete : Method Bucket (World C K) (Unit {0})
  delete s =
      let b = s.obj in
      if b.status.service_uuid == "" || b.status.name == ""
      then (ok tt, s)
      else let (r, s') =
          cloud_call (api.delete_bucket (b.status.service_uuid, external_name b.spec.name b.meta))
            s in
        (removed "delete object storage bucket" (err (sentinel pending)) r, s')

  abbrev pub bucket_adapter : Adapter Bucket (World C K)
  bucket_adapter = record { observe = observe; create = create; update = update; delete = delete }
