-- ===== src/Fake/Network/Laws.antt =====
-- The in-memory account keeps the laws that the adapters rely on.
use upcloud_operator.Prelude.{
  ◌==◌, not, if◌then◌else◌, Option, ℕ, String, ◌≡◌, refl, Bool-cases, ◌∙◌, true, false,
  Option-cases, inl, inr, none, some, List, Result, ok, err, lookup, lookup-insert, lookup-erase,
  insert, erase, eq_refl,
}
use upcloud_operator.Errors.{Err, is_not_found}
use upcloud_operator.Networking.Upcloud.{IpNetwork, Network, Router, ModifyNetwork, ModifyRouter}
use upcloud_operator.Networking.NetworkStore.{IsNetworkStore, IsModified, AreStored, IsFilled-refl}
use upcloud_operator.Networking.RouterStore.{IsRouterStore}
use upcloud_operator.Networking.Convert.{ptr_default}
use upcloud_operator.Fake.Network.{
  Account, problem_of, delete_network, delete_router, router_in_use, network_api, recorded,
  record_call, get_network_details, modify_network, set_router, attach_network_router,
  detach_network_router, get_router_details, modify_router,
}

-- A pending failure does not claim that something is missing.
pub record IsHonest (c : Account) : Type 0 where
  pub honest : (e : Err) → c.fail_next ≡ some e → is_not_found e ≡ false

-- Every network and every router stands under its own UUID, and a pending failure does not claim
-- that something is missing.
pub record IsValid (c : Account) : Type 0 where
  pub network-uuid : (k : String) (n : Network) → lookup k c.networks ≡ some n → n.uuid ≡ k
  pub router-uuid : (k : String) (r : Router) → lookup k c.routers ≡ some r → r.uuid ≡ k
  pub honest : (e : Err) → c.fail_next ≡ some e → is_not_found e ≡ false

pub lookup-insert_self :
    {A : Type 0} (k : String) (a : A) (m : List (String × A)) → lookup k (insert k a m) ≡ some a
lookup-insert_self k a m = lookup-insert k k a m ∙ rw (eq_refl k) refl

pub lookup-erase_self :
    {A : Type 0} (k : String) (m : List (String × A)) → lookup k (erase k m) ≡ none
lookup-erase_self k m = lookup-erase k k m ∙ rw (eq_refl k) refl

pub due_not_missing :
    (c : Account) (d e : Err)
    → IsHonest c
    → c.fail_next ≡ some d
    → Path (Result Err (Unit {0})) (err d) (err e)
    → ¬ (is_not_found e ≡ true)
due_not_missing c d e v due same missing = let h = v.honest d due in cc

-- The in-memory API fills in no gateway.
AreStored-ptr_default :
    (sent : Option (List IpNetwork)) (old : List IpNetwork)
    → AreStored sent old (ptr_default sent old)
unfolding AreStored ptr_default
AreStored-ptr_default none old = refl
AreStored-ptr_default (some l) old = IsFilled-refl l

abbrev modified : ModifyNetwork → Network → Network
modified r n = record n {
  name = if not (r.name == "") then r.name else n.name;
  ip_networks = ptr_default r.ip_networks n.ip_networks;
  labels = ptr_default r.labels n.labels;
}

module _ (problem_text : ℕ → String → String) where
  in_use_not_missing :
      (e : Err)
      → Path
          (Result Err (Unit {0}))
          (err (problem_of problem_text 409 "router has attached networks"))
          (err e)
      → ¬ (is_not_found e ≡ true)
  unfolding is_not_found
  in_use_not_missing e same missing =
      let h : is_not_found (problem_of problem_text 409 "router has attached networks") ≡ false =
        refl in
      cc

  modify_applies :
      (r : ModifyNetwork) (c : Account) (n m : Network)
      → lookup r.uuid c.networks ≡ some n
      → (modify_network problem_text r c).0 ≡ ok m
      → (new : Network) × (lookup r.uuid (modify_network problem_text r c).1.networks ≡ some new)
        × IsModified r n new
  unfolding modify_network recorded record_call
  modify_applies r c n m held done = elim (Option-cases c.fail_next) [
    | inl quiet ↦ (
      modified r n,
      rw (quiet, held) (lookup-insert_self r.uuid (modified r n) c.networks),
      record { rest = refl; ip_networks = AreStored-ptr_default r.ip_networks n.ip_networks },
    )
    | inr (e, due) ↦ cc (rw due at done)
  ]

  set_router_applies :
      (call uuid router : String) (c : Account) (n : Network)
      → lookup uuid c.networks ≡ some n
      → (set_router problem_text call uuid router c).0 ≡ ok tt
      → lookup uuid (set_router problem_text call uuid router c).1.networks
        ≡ some (record n { router = router })
  unfolding set_router recorded record_call
  set_router_applies call uuid router c n held done = elim (Option-cases c.fail_next) [
    | inl quiet ↦
        rw (quiet, held) (lookup-insert_self uuid (record n { router = router }) c.networks)
    | inr (e, due) ↦ cc (rw due at done)
  ]

  get_found :
      (uuid : String) (c : Account) (n : Network)
      → lookup uuid c.networks ≡ some n
      → (get_network_details problem_text uuid c).0 ≡ ok n
  unfolding get_network_details
  get_found uuid c n held = rw held refl

  get_sound :
      (uuid : String) (c : Account) (n : Network)
      → (get_network_details problem_text uuid c).0 ≡ ok n
      → lookup uuid c.networks ≡ some n
  unfolding get_network_details
  get_sound uuid c n done = elim (Option-cases (lookup uuid c.networks)) [
    | inl missing ↦ cc (rw missing at done)
    | inr (m, held) ↦ cc (rw held at done)
  ]

  get_keeps :
      (uuid : String) (c : Account) (j : String)
      → lookup j (get_network_details problem_text uuid c).1.networks ≡ lookup j c.networks
  unfolding get_network_details
  get_keeps uuid c j = elim (Option-cases (lookup uuid c.networks)) [
    | inl missing ↦ rw missing refl
    | inr (m, held) ↦ rw held refl
  ]

  delete_applies :
      (uuid : String) (c : Account)
      → (delete_network problem_text uuid c).0 ≡ ok tt
      → lookup uuid (delete_network problem_text uuid c).1.networks ≡ none
  unfolding delete_network recorded record_call
  delete_applies uuid c done = elim (Option-cases c.fail_next) [
    | inl quiet ↦ elim (Option-cases (lookup uuid c.networks)) [
      | inl missing ↦ cc (rw (quiet, missing) at done)
      | inr (n, held) ↦ rw (quiet, held) (lookup-erase_self uuid c.networks)
    ]
    | inr (e, due) ↦ cc (rw due at done)
  ]

  delete_missing :
      (uuid : String) (c : Account) (e : Err)
      → IsValid c
      → (delete_network problem_text uuid c).0 ≡ err e
      → is_not_found e ≡ true
      → lookup uuid (delete_network problem_text uuid c).1.networks ≡ none
  unfolding delete_network recorded record_call
  delete_missing uuid c e v answer missing = elim (Option-cases c.fail_next) [
    | inl quiet ↦ elim (Option-cases (lookup uuid c.networks)) [
      | inl gone ↦ rw (quiet, gone) gone
      | inr (n, held) ↦ cc (rw (quiet, held) at answer)
    ]
    | inr (d, due) ↦
        absurd (due_not_missing c d e (record { honest = v.honest }) due (rw due at answer) missing)
  ]

  pub network_store : IsNetworkStore (network_api problem_text)
  unfolding attach_network_router detach_network_router
  network_store = record {
    IsValid = IsValid;
    network = λ c uuid. lookup uuid c.networks;
    network-uuid = λ c uuid n valid. valid.network-uuid uuid n;
    get-found = get_found;
    get-sound = get_sound;
    get-keeps = get_keeps;
    modify-applies = modify_applies;
    attach-applies = set_router_applies "AttachNetworkRouter";
    detach-applies = λ uuid. set_router_applies "DetachNetworkRouter" uuid "";
    delete-applies = delete_applies;
    delete-missing = delete_missing;
  }

  pub delete_router_applies :
      (uuid : String) (c : Account)
      → (delete_router problem_text uuid c).0 ≡ ok tt
      → lookup uuid (delete_router problem_text uuid c).1.routers ≡ none
  unfolding delete_router recorded record_call
  delete_router_applies uuid c done = elim (Option-cases c.fail_next) [
    | inl quiet ↦ elim (Option-cases (lookup uuid c.routers)) [
      | inl missing ↦ cc (rw (quiet, missing) at done)
      | inr (n, held) ↦ elim (Bool-cases (router_in_use uuid c.networks)) [
        | inl used ↦ cc (rw (quiet, held, used) at done)
        | inr free ↦ rw (quiet, held, free) (lookup-erase_self uuid c.routers)
      ]
    ]
    | inr (e, due) ↦ cc (rw due at done)
  ]

  pub delete_router_missing :
      (uuid : String) (c : Account) (e : Err)
      → IsValid c
      → (delete_router problem_text uuid c).0 ≡ err e
      → is_not_found e ≡ true
      → lookup uuid (delete_router problem_text uuid c).1.routers ≡ none
  unfolding delete_router recorded record_call
  delete_router_missing uuid c e v answer missing = elim (Option-cases c.fail_next) [
    | inl quiet ↦ elim (Option-cases (lookup uuid c.routers)) [
      | inl gone ↦ rw (quiet, gone) gone
      | inr (n, held) ↦ elim (Bool-cases (router_in_use uuid c.networks)) [
        | inl used ↦ absurd (in_use_not_missing e (rw (quiet, held, used) at answer) missing)
        | inr free ↦ cc (rw (quiet, held, free) at answer)
      ]
    ]
    | inr (d, due) ↦
        absurd (due_not_missing c d e (record { honest = v.honest }) due (rw due at answer) missing)
  ]

  pub modified_router : ModifyRouter → Router → Router
  modified_router r old = record old {
    name = r.name;
    labels = ptr_default r.labels old.labels;
    static_routes = ptr_default r.static_routes old.static_routes;
  }

  pub modify_router_existing :
      (r : ModifyRouter) (c : Account) (rt : Router)
      → (modify_router problem_text r c).0 ≡ ok rt
      → (old : Router) × (lookup r.uuid c.routers ≡ some old)
  unfolding modify_router recorded record_call
  modify_router_existing r c rt done = elim (Option-cases c.fail_next) [
    | inl quiet ↦ elim (Option-cases (lookup r.uuid c.routers)) [
      | inl missing ↦ cc (rw (quiet, missing) at done)
      | inr held ↦ held
    ]
    | inr (e, due) ↦ cc (rw due at done)
  ]

  pub modify_router_applies :
      (r : ModifyRouter) (c : Account) (old rt : Router)
      → lookup r.uuid c.routers ≡ some old
      → (modify_router problem_text r c).0 ≡ ok rt
      → lookup r.uuid (modify_router problem_text r c).1.routers ≡ some (modified_router r old)
  unfolding modify_router recorded record_call modified_router
  modify_router_applies r c old rt held done = elim (Option-cases c.fail_next) [
    | inl quiet ↦ rw (quiet, held) (lookup-insert_self r.uuid (modified_router r old) c.routers)
    | inr (e, due) ↦ cc (rw due at done)
  ]

  pub get_router_found :
      (uuid : String) (c : Account) (rt : Router)
      → lookup uuid c.routers ≡ some rt
      → (get_router_details problem_text uuid c).0 ≡ ok rt
  unfolding get_router_details
  get_router_found uuid c rt held = rw held refl

  unfoldable pub router_store : IsRouterStore (network_api problem_text)
  unfolding modified_router
  router_store = record {
    IsValid = IsValid;
    router = λ c uuid. lookup uuid c.routers;
    get-found = get_router_found;
    modified = λ r c old. modified_router r old;
    delete-applies = delete_router_applies;
    delete-missing = delete_router_missing;
    modify-existing = modify_router_existing;
    modify-applies = modify_router_applies;
    modified-IsModified = λ r c old. record { name = refl; labels = refl; routes = refl };
  }

  -- Valid accounts are valid for both adapters.
  pub network_store-IsValid : (c : Account) → IsValid c → (network_store).IsValid c
  unfolding network_store
  network_store-IsValid c v = v

  pub router_store-IsValid : (c : Account) → IsValid c → (router_store).IsValid c
  unfolding router_store
  router_store-IsValid c v = v
