-- ===== src/Tests/Storage.antt =====
-- A bucket on the second page of the metrics, a service whose settings drifted and a custom domain.
use upcloud_operator.Prelude.{
  ◌==◌, if◌then◌else◌, ℕ, zero, suc, ◌≡◌, refl, true, false, Option, none, some, Result, ok, err,
  List, [], ◌∷◌, String, arith,
}
use upcloud_operator.Errors.{Err}
use upcloud_operator.Kube.{policy_delete}
use upcloud_operator.Kube.Model.{library}
use upcloud_operator.Effects.{Call, World}
use upcloud_operator.Networking.Types.{Network}
use upcloud_operator.Storage.Types.{Service, CustomDomain, external_name}
use upcloud_operator.Storage.Upcloud
use upcloud_operator.Storage.Upcloud.{
  BucketApi, BucketMetrics, Page, ServiceApi, ModifyService, DomainApi, ModifyDomain,
}
use upcloud_operator.Storage.BucketAdapter.{find_from}
use upcloud_operator.Storage.BucketAdapter.Pages.{
  page_at, AreFull, IsPaged, Ends, find_from-terminates,
}
use upcloud_operator.Storage.ServiceAdapter
use upcloud_operator.Storage.ServiceAdapter.{ServiceStates}
use upcloud_operator.Storage.ServiceAdapter.Laws as ServiceLaws
use upcloud_operator.Storage.ServiceAdapter.Laws.{Settled, observe-update_service}
use upcloud_operator.Storage.DomainAdapter
use upcloud_operator.Storage.DomainAdapter.Laws.{IsDomainStore, observe-update_domain}
use upcloud_operator.Tests.Slot.{slot_get, slot_modify, slot_delete, slot_store, missing}
use upcloud_operator.Tests.Fixtures.{meta_of}

abbrev metrics : String → BucketMetrics
metrics name = record { name = name; deleted = false; total_objects = 3; total_size_bytes = 9 }

-- The pages, of which the first has a bucket of the name that is deleted.
abbrev all_pages : List (List BucketMetrics)
all_pages = (record (metrics "logs") { deleted = true } ∷ []) ∷ (metrics "logs" ∷ []) ∷ []

unfoldable page_numbered : ℕ → List BucketMetrics
unfolding page_at
page_numbered zero = []
page_numbered (suc n) = page_at n all_pages

abbrev bucket_api : BucketApi (Unit {0})
bucket_api = record {
  get_bucket_metrics = λ service page c. (ok (page_numbered page.number), c);
  create_bucket = λ n c. (ok (metrics n.1), c);
  delete_bucket = λ n c. (ok tt, c);
}

read_page :
    (n : ℕ) (l : List BucketMetrics)
    → Path (Result Err (List BucketMetrics)) (ok (page_at n all_pages)) (ok l)
    → l ≡ page_at n all_pages
read_page n l answer = cc

pages_full : AreFull all_pages
unfolding AreFull
pages_full = (ground arith, (ground arith, tt))

bucket-IsPaged : IsPaged bucket_api
unfolding page_numbered
bucket-IsPaged = record {
  pages = λ c service. all_pages;
  are_full = λ c service. pages_full;
  get-page = λ c service n l answer. read_page n l answer;
  get-keeps = λ c service n. refl;
}

find_from-terminates_example :
    Ends "logs" all_pages (find_from bucket_api 3 "svc-0001" "logs" 1 tt).0
unfolding bucket-IsPaged
find_from-terminates_example =
    find_from-terminates bucket-IsPaged "svc-0001" "logs" 3 tt (ground arith)

-- The loop skips the deleted bucket.
find_from_second :
    (find_from bucket_api 3 "svc-0001" "logs" 1 tt).0 ≡ some (ok (some (metrics "logs")))
unfolding find_from page_numbered
find_from_second = refl

abbrev service : Service
service = record {
  meta = meta_of "store" none;
  spec = record {
    name = "archive";
    region = "europe-1";
    configured_status = "stopped";
    networks =
        record { name = "public"; type = "public"; family = "IPv4"; uuid = ""; network_ref = none }
        ∷ [];
    termination_protection = true;
    labels = ("env", "prod") ∷ [];
    deletion_policy = policy_delete;
  };
  status = record { conditions = []; uuid = "svc-0001"; operational_state = ""; endpoints = [] };
}

abbrev public_network : Upcloud.ServiceNetwork
public_network = record { name = "public"; type = "public"; family = "IPv4"; uuid = none }

abbrev old_service : Upcloud.Service
old_service = record {
  uuid = "svc-0001";
  name = "old";
  region = "europe-1";
  configured_status = "started";
  operational_state = "running";
  termination_protection = false;
  endpoints = [];
  networks = [];
  labels = [];
}

abbrev states : ServiceStates
states = record {
  running = "running";
  stopped = "stopped";
  delete_service = "delete-service";
  delete_dns = "delete-dns";
  delete_network = "delete-network";
}

-- The state follows the configured status.
unfoldable state_after : ModifyService → Upcloud.Service → String
state_after q v = elim q.configured_status [
  | none ↦ v.operational_state
  | some c ↦
      if c == "started"
      then "running"
      else if c == "stopped"
      then "stopped"
      else v.operational_state
]

abbrev service_api : ServiceApi (Option Upcloud.Service)
service_api = record {
  get_services = λ c. (ok [], c);
  get_service = slot_get;
  create_service = λ r c. (ok old_service, some old_service);
  modify_service = slot_modify (ServiceLaws.modified state_after);
  delete_service = λ force. slot_delete;
}

abbrev service_call : Call Service (World (Option Upcloud.Service) (Unit {0}))
service_call = record { obj = service; world = record { cloud = some old_service; cluster = tt } }

abbrev read_network : Unit {0} → String → String → Result Err Network
read_network k namespace name = err missing

observe-update_service_example :
    Settled library states service_api read_network state_after
      (slot_store (λ q. q.uuid) (ServiceLaws.modified state_after))
      (ServiceAdapter.update library states service_api read_network service_call).1
unfolding slot_store upcloud_operator.Storage.ServiceNetworks.desired_networks ServiceAdapter.update
    ServiceAdapter.lookup external_name
observe-update_service_example =
    observe-update_service library states service_api read_network state_after
      (slot_store (λ q. q.uuid) (ServiceLaws.modified state_after)) service_call old_service
      (public_network ∷ []) refl refl refl refl refl refl

abbrev domain : CustomDomain
domain = record {
  meta = meta_of "files" none;
  spec = record {
    service_ref = "store";
    domain_name = "files.example.com";
    type = "";
    deletion_policy = policy_delete;
  };
  status = record {
    conditions = [];
    service_uuid = "svc-0001";
    domain_name = "files.example.com";
    type = "private";
  };
}

abbrev old_domain : Upcloud.CustomDomain
old_domain = record { domain_name = "files.example.com"; type = "private" }

unfoldable change : ModifyDomain → Upcloud.CustomDomain → Upcloud.CustomDomain
change q d = q.custom_domain

abbrev domain_api : DomainApi (Option Upcloud.CustomDomain)
domain_api = record {
  get_custom_domain = slot_get;
  create_custom_domain = λ r c. (ok tt, some old_domain);
  modify_custom_domain = slot_modify change;
  delete_custom_domain = slot_delete;
}

found_domain :
    (c : Option Upcloud.CustomDomain) (n : String × String) (d : Upcloud.CustomDomain)
    → c ≡ some d
    → (slot_get {I = String × String} {R = Upcloud.CustomDomain} n c).0 ≡ ok d
unfolding slot_get
found_domain none n d held = cc
found_domain (some e) n d held = cc

changed_domain :
    (c : Option Upcloud.CustomDomain) (q : ModifyDomain) (d : Upcloud.CustomDomain)
    → (slot_modify change q c).0 ≡ ok d
    → (slot_modify change q c).1 ≡ some q.custom_domain
unfolding slot_modify change
changed_domain none q d answer = cc
changed_domain (some e) q d answer = refl

domain_store : IsDomainStore domain_api
domain_store = record {
  held = λ c n. c;
  get-found = found_domain;
  modify-applies = λ c q d same answer. changed_domain c q d answer;
}

abbrev domain_call : Call CustomDomain (World (Option Upcloud.CustomDomain) (Unit {0}))
domain_call = record { obj = domain; world = record { cloud = some old_domain; cluster = tt } }

abbrev read_service : Unit {0} → String → String → Result Err Service
read_service k namespace name = ok service

observe-update_domain_example :
    (DomainAdapter.observe library domain_api read_service
      (DomainAdapter.update library domain_api read_service domain_call).1).0
    ≡ ok (record {
      exists = true;
      up_to_date = true;
      ready = true;
      message = "domain files.example.com";
    })
unfolding DomainAdapter.update upcloud_operator.Storage.Calls.parent_uuid
    upcloud_operator.Effects.missing_as_none slot_get slot_modify
observe-update_domain_example =
    observe-update_domain library domain_api read_service domain_store domain_call refl refl
