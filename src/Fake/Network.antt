-- ===== src/Fake/Network.antt =====
-- The in-memory UpCloud API of the network group (internal/upcloudapi/fake/network.go): its state,
-- its networks and its routers. A
-- list call answers in the order of the map's list.
pub mod Laws
pub mod Reachable
use upcloud_operator.Prelude.{
  ℕ, zero, suc, ◌+◌, ◌<>◌, String, Bool, true, false, not, ◌&&◌, ◌||◌, Option, none, some, List, [],
  ◌∷◌, ◌++◌, ◌==◌, if◌then◌else◌, Result, ok, err, lookup, insert, erase, nat_eq,
}
use Prim.Native.Nat.{◌/◌, ◌%◌}
use upcloud_operator.Errors.{Err, problem}
use upcloud_operator.Labels.{Label}
use upcloud_operator.Networking.Upcloud.{
  Network, Router, IpAddress, NetworkPeering, CreateNetwork, ModifyNetwork, CreateRouter,
  ModifyRouter, ApiCall, NetworkApi,
}
use upcloud_operator.Networking.Convert.{ptr_default}

-- request.QueryFilter: a filter by label, or one of the other kinds.
pub data QueryFilter : Type 0 where
  filter_label : Label → QueryFilter
  other_filter : QueryFilter

-- The inner loop of hasAllLabels.
unfoldable pub has_label : List Label → Label → Bool
has_label [] f = false
has_label (l ∷ labels) f = l.key == f.key && l.value == f.value || has_label labels f

unfoldable pub has_all_labels : List Label → List QueryFilter → Bool
unfolding has_label
has_all_labels labels [] = true
has_all_labels labels (other_filter ∷ filters) = has_all_labels labels filters
has_all_labels labels (filter_label f ∷ filters) =
    has_label labels f && has_all_labels labels filters

-- NetworkAPI, with its maps as association lists.
pub record Account : Type 0 where
  pub seq : ℕ
  pub networks : List (String × Network)
  pub routers : List (String × Router)
  pub ips : List (String × IpAddress)
  pub peerings : List (String × NetworkPeering)
  pub calls : List String
  pub fail_next : Option Err

-- NewNetworkAPI
abbrev pub empty : Account
empty = record {
  seq = 0;
  networks = [];
  routers = [];
  ips = [];
  peerings = [];
  calls = [];
  fail_next = none;
}

abbrev pub log : String → Account → Account
log name f = record f { calls = f.calls ++ name ∷ [] }

-- record: the error to answer with, if one is due.
unfoldable pub record_call : String → Account → Option Err × Account
record_call name f = (f.fail_next, record (log name f) { fail_next = none })

-- if err := f.record(name); err != nil { return err }
unfoldable pub recorded : {A : Type 0} → String → ApiCall Account A → ApiCall Account A
unfolding record_call
recorded name call f =
    let (e, f') = record_call name f in elim e [ some failure ↦ (err failure, f') | none ↦ call f' ]

-- The digits of %d and %x.
unfoldable pub digit : ℕ → String
digit n =
    if nat_eq n 0
    then "0"
    else if nat_eq n 1
    then "1"
    else if nat_eq n 2
    then "2"
    else if nat_eq n 3
    then "3"
    else if nat_eq n 4
    then "4"
    else if nat_eq n 5
    then "5"
    else if nat_eq n 6
    then "6"
    else if nat_eq n 7
    then "7"
    else if nat_eq n 8
    then "8"
    else if nat_eq n 9
    then "9"
    else if nat_eq n 10
    then "a"
    else if nat_eq n 11
    then "b"
    else if nat_eq n 12
    then "c"
    else if nat_eq n 13
    then "d"
    else if nat_eq n 14
    then "e"
    else "f"

-- A number in a base, with at least `w` digits, zeros in front; `fuel` bounds the digits beyond
-- those.
unfoldable pub numeral : ℕ → ℕ → ℕ → ℕ → String
unfolding digit
numeral base zero zero n = ""
numeral base zero (suc fuel) n =
    let rest = numeral base zero fuel (n / base) in
    if nat_eq n 0 then "" else rest <> digit (n % base)
numeral base (suc w) fuel n = numeral base w fuel (n / base) <> digit (n % base)

unfoldable pub next_uuid : String → Account → String × Account
unfolding numeral
next_uuid prefix f =
    let seq = f.seq + 1 in (prefix <> ("-" <> numeral 10 4 seq seq), record f { seq = seq })

-- The loops of GetNetworks and GetRouters.
unfoldable pub filtered :
    {A : Type 0} → (A → List Label) → List QueryFilter → List (String × A) → List A
unfolding has_all_labels
filtered labels filters [] = []
filtered labels filters ((k, a) ∷ m) =
    let rest = filtered labels filters m in
    if has_all_labels (labels a) filters then a ∷ rest else rest

-- m[key] = n
abbrev pub put_network : String → Network → Account → Account
put_network key n f = record f { networks = insert key n f.networks }

abbrev pub put_router : String → Router → Account → Account
put_router key rt f = record f { routers = insert key rt f.routers }

-- The loop of DeleteRouter: whether a network has the router.
unfoldable pub router_in_use : String → List (String × Network) → Bool
router_in_use uuid [] = false
router_in_use uuid ((k, n) ∷ m) = n.router == uuid || router_in_use uuid m

-- `problem_text` is the text that the SDK gives a Problem with this status and title.
module _ (problem_text : ℕ → String → String) where
  abbrev pub problem_of : ℕ → String → Err
  problem_of status title = problem status title (problem_text status title)

  abbrev pub not_found : String → Err
  not_found what = problem_of 404 (what <> " not found")

  -- x, ok := m[key]; if !ok { return NotFound(what) }
  abbrev pub found :
      {A B : Type 0} → String → Option A → (A → ApiCall Account B) → ApiCall Account B
  found what none call f = (err (not_found what), f)
  found what (some a) call f = call a f

  unfoldable pub get_networks : List QueryFilter → ApiCall Account (List Network)
  unfolding filtered
  get_networks filters f = (ok (filtered (λ n. n.labels) filters f.networks), log "GetNetworks" f)

  unfoldable pub get_network_details : String → ApiCall Account Network
  unfolding lookup
  get_network_details uuid f =
      found "network" (lookup uuid f.networks) (λ n f. (ok n, f)) (log "GetNetworkDetails" f)

  unfoldable pub create_network : CreateNetwork → ApiCall Account Network
  unfolding recorded next_uuid insert
  create_network r = recorded "CreateNetwork" (λ f.
      let (uuid, f') = next_uuid "net" f in
      let n : Network = record {
        uuid = uuid;
        name = r.name;
        zone = r.zone;
        router = r.router;
        ip_networks = r.ip_networks;
        labels = r.labels;
      } in
      (ok n, put_network uuid n f'))

  unfoldable pub modify_network : ModifyNetwork → ApiCall Account Network
  unfolding recorded lookup insert ptr_default
  modify_network r = recorded "ModifyNetwork" (λ f.
      found "network" (lookup r.uuid f.networks)
        (λ n f.
          let m : Network = record n {
            name = if not (r.name == "") then r.name else n.name;
            ip_networks = ptr_default r.ip_networks n.ip_networks;
            labels = ptr_default r.labels n.labels;
          } in
          (ok m, put_network r.uuid m f))
        f)

  unfoldable pub delete_network : String → ApiCall Account (Unit {0})
  unfolding recorded lookup erase
  delete_network uuid = recorded "DeleteNetwork" (λ f.
      found "network" (lookup uuid f.networks)
        (λ _ f. (ok tt, record f { networks = erase uuid f.networks })) f)

  -- The common body of AttachNetworkRouter and DetachNetworkRouter.
  pub set_router : String → String → String → ApiCall Account (Unit {0})
  unfolding recorded lookup insert
  set_router call uuid router = recorded call (λ f.
      found "network" (lookup uuid f.networks)
        (λ n f. (ok tt, put_network uuid (record n { router = router }) f)) f)

  unfoldable pub attach_network_router : String → String → ApiCall Account (Unit {0})
  unfolding set_router
  attach_network_router uuid router = set_router "AttachNetworkRouter" uuid router

  unfoldable pub detach_network_router : String → ApiCall Account (Unit {0})
  unfolding set_router
  detach_network_router uuid = set_router "DetachNetworkRouter" uuid ""

  unfoldable pub get_routers : List QueryFilter → ApiCall Account (List Router)
  unfolding filtered
  get_routers filters f = (ok (filtered (λ r. r.labels) filters f.routers), log "GetRouters" f)

  unfoldable pub get_router_details : String → ApiCall Account Router
  unfolding lookup
  get_router_details uuid f =
      found "router" (lookup uuid f.routers) (λ rt f. (ok rt, f)) (log "GetRouterDetails" f)

  unfoldable pub create_router : CreateRouter → ApiCall Account Router
  unfolding recorded next_uuid insert
  create_router r = recorded "CreateRouter" (λ f.
      let (uuid, f') = next_uuid "rtr" f in
      let rt : Router = record {
        uuid = uuid;
        name = r.name;
        labels = r.labels;
        static_routes = r.static_routes;
        attached_networks = [];
      } in
      (ok rt, put_router uuid rt f'))

  unfoldable pub modify_router : ModifyRouter → ApiCall Account Router
  unfolding recorded lookup insert ptr_default
  modify_router r = recorded "ModifyRouter" (λ f.
      found "router" (lookup r.uuid f.routers)
        (λ old f.
          let rt : Router = record old {
            name = r.name;
            labels = ptr_default r.labels old.labels;
            static_routes = ptr_default r.static_routes old.static_routes;
          } in
          (ok rt, put_router r.uuid rt f))
        f)

  unfoldable pub delete_router : String → ApiCall Account (Unit {0})
  unfolding recorded lookup erase router_in_use
  delete_router uuid = recorded "DeleteRouter" (λ f.
      found "router" (lookup uuid f.routers)
        (λ _ f.
          if router_in_use uuid f.networks
          then (err (problem_of 409 "router has attached networks"), f)
          else (ok tt, record f { routers = erase uuid f.routers }))
        f)

  abbrev pub network_api : NetworkApi Account
  network_api = record {
    get_networks = λ l. get_networks (filter_label l ∷ []);
    get_network_details = get_network_details;
    create_network = create_network;
    modify_network = modify_network;
    delete_network = delete_network;
    attach_network_router = attach_network_router;
    detach_network_router = detach_network_router;
    get_routers = λ l. get_routers (filter_label l ∷ []);
    get_router_details = get_router_details;
    create_router = create_router;
    modify_router = modify_router;
    delete_router = delete_router;
  }
