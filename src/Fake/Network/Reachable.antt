-- ===== src/Fake/Network/Reachable.antt =====
-- The states that the in-memory account reaches by its calls.
use upcloud_operator.Prelude.{
  ℕ, String, ◌≡◌, refl, Bool-cases, Option-cases, inl, inr, none, some, List, lookup, lookup-insert,
  lookup-erase, erase, arith, eq_iff,
}
use upcloud_operator.Errors.{Err}
use upcloud_operator.Networking.Upcloud.{
  Network, Router, CreateNetwork, ModifyNetwork, CreateRouter, ModifyRouter,
}
use upcloud_operator.Fake.Network.{
  QueryFilter, Account, empty, log, recorded, record_call, next_uuid, put_network, put_router,
  router_in_use, get_networks, get_network_details, create_network, modify_network, delete_network,
  set_router, attach_network_router, detach_network_router, get_routers, get_router_details,
  create_router, modify_router, delete_router,
}

-- Every network and every router stands under its own UUID.
pub record IsKeyed (c : Account) : Type 0 where
  pub network-uuid : (k : String) (n : Network) → lookup k c.networks ≡ some n → n.uuid ≡ k
  pub router-uuid : (k : String) (r : Router) → lookup k c.routers ≡ some r → r.uuid ≡ k

module _ (problem_text : ℕ → String → String) where
  -- The states that calls on networks and routers lead to from a new account. A test may let the
  -- next call that changes something fail, with any error.
  pub data Reachable : Account → Type 0 where
    start : Reachable empty
    armed : {c : Account} (e : Err) → Reachable c → Reachable (record c { fail_next = some e })
    got_networks :
        {c : Account} (fs : List QueryFilter)
        → Reachable c
        → Reachable (get_networks problem_text fs c).1
    got_network :
        {c : Account} (uuid : String)
        → Reachable c
        → Reachable (get_network_details problem_text uuid c).1
    created_network :
        {c : Account} (r : CreateNetwork)
        → Reachable c
        → Reachable (create_network problem_text r c).1
    modified_network :
        {c : Account} (r : ModifyNetwork)
        → Reachable c
        → Reachable (modify_network problem_text r c).1
    deleted_network :
        {c : Account} (uuid : String)
        → Reachable c
        → Reachable (delete_network problem_text uuid c).1
    attached_router :
        {c : Account} (uuid router : String)
        → Reachable c
        → Reachable (attach_network_router problem_text uuid router c).1
    detached_router :
        {c : Account} (uuid : String)
        → Reachable c
        → Reachable (detach_network_router problem_text uuid c).1
    got_routers :
        {c : Account} (fs : List QueryFilter)
        → Reachable c
        → Reachable (get_routers problem_text fs c).1
    got_router :
        {c : Account} (uuid : String)
        → Reachable c
        → Reachable (get_router_details problem_text uuid c).1
    created_router :
        {c : Account} (r : CreateRouter)
        → Reachable c
        → Reachable (create_router problem_text r c).1
    modified_router :
        {c : Account} (r : ModifyRouter)
        → Reachable c
        → Reachable (modify_router problem_text r c).1
    deleted_router :
        {c : Account} (uuid : String)
        → Reachable c
        → Reachable (delete_router problem_text uuid c).1

  -- A call that is only logged.
  logged-IsKeyed : (name : String) (c : Account) → IsKeyed c → IsKeyed (log name c)
  logged-IsKeyed name c v = record { network-uuid = v.network-uuid; router-uuid = v.router-uuid }

  -- A call that takes the pending failure.
  taken-IsKeyed :
      (name : String) (c : Account) → IsKeyed c → IsKeyed (record (log name c) { fail_next = none })
  taken-IsKeyed name c v = record { network-uuid = v.network-uuid; router-uuid = v.router-uuid }

  numbered-IsKeyed : (seq : ℕ) (c : Account) → IsKeyed c → IsKeyed (record c { seq = seq })
  numbered-IsKeyed seq c v = record { network-uuid = v.network-uuid; router-uuid = v.router-uuid }

  put_network-IsKeyed :
      (k : String) (n : Network) (c : Account)
      → n.uuid ≡ k
      → IsKeyed c
      → IsKeyed (put_network k n c)
  put_network-IsKeyed k n c named v = record {
    network-uuid =
        λ j m held. ground (arith, eq_iff k j, lookup-insert k j n c.networks, v.network-uuid j m);
    router-uuid = v.router-uuid;
  }

  put_router-IsKeyed :
      (k : String) (r : Router) (c : Account) → r.uuid ≡ k → IsKeyed c → IsKeyed (put_router k r c)
  put_router-IsKeyed k r c named v = record {
    network-uuid = v.network-uuid;
    router-uuid =
        λ j m held. ground (arith, eq_iff k j, lookup-insert k j r c.routers, v.router-uuid j m);
  }

  erase_network-IsKeyed :
      (k : String) (c : Account) → IsKeyed c → IsKeyed (record c { networks = erase k c.networks })
  erase_network-IsKeyed k c v = record {
    network-uuid =
        λ j m held. ground (arith, eq_iff k j, lookup-erase k j c.networks, v.network-uuid j m);
    router-uuid = v.router-uuid;
  }

  erase_router-IsKeyed :
      (k : String) (c : Account) → IsKeyed c → IsKeyed (record c { routers = erase k c.routers })
  erase_router-IsKeyed k c v = record {
    network-uuid = v.network-uuid;
    router-uuid =
        λ j m held. ground (arith, eq_iff k j, lookup-erase k j c.routers, v.router-uuid j m);
  }

  create_network-IsKeyed :
      (r : CreateNetwork) (c : Account) → IsKeyed c → IsKeyed (create_network problem_text r c).1
  unfolding create_network next_uuid recorded record_call
  create_network-IsKeyed r c v = elim (Option-cases c.fail_next) [
    | inl quiet ↦
        rw quiet (put_network-IsKeyed _ _ _ refl (numbered-IsKeyed _ _ (taken-IsKeyed _ c v)))
    | inr (e, due) ↦ rw due (taken-IsKeyed _ c v)
  ]

  create_router-IsKeyed :
      (r : CreateRouter) (c : Account) → IsKeyed c → IsKeyed (create_router problem_text r c).1
  unfolding create_router next_uuid recorded record_call
  create_router-IsKeyed r c v = elim (Option-cases c.fail_next) [
    | inl quiet ↦
        rw quiet (put_router-IsKeyed _ _ _ refl (numbered-IsKeyed _ _ (taken-IsKeyed _ c v)))
    | inr (e, due) ↦ rw due (taken-IsKeyed _ c v)
  ]

  modify_network-IsKeyed :
      (r : ModifyNetwork) (c : Account) → IsKeyed c → IsKeyed (modify_network problem_text r c).1
  unfolding modify_network recorded record_call
  modify_network-IsKeyed r c v = elim (Option-cases c.fail_next) [
    | inl quiet ↦ elim (Option-cases (lookup r.uuid c.networks)) [
      | inl missing ↦ rw (quiet, missing) (taken-IsKeyed _ c v)
      | inr (n, held) ↦
          rw (quiet, held)
            (put_network-IsKeyed r.uuid _ _ (v.network-uuid r.uuid n held) (taken-IsKeyed _ c v))
    ]
    | inr (e, due) ↦ rw due (taken-IsKeyed _ c v)
  ]

  modify_router-IsKeyed :
      (r : ModifyRouter) (c : Account) → IsKeyed c → IsKeyed (modify_router problem_text r c).1
  unfolding modify_router recorded record_call
  modify_router-IsKeyed r c v = elim (Option-cases c.fail_next) [
    | inl quiet ↦ elim (Option-cases (lookup r.uuid c.routers)) [
      | inl missing ↦ rw (quiet, missing) (taken-IsKeyed _ c v)
      | inr (n, held) ↦
          rw (quiet, held)
            (put_router-IsKeyed r.uuid _ _ (v.router-uuid r.uuid n held) (taken-IsKeyed _ c v))
    ]
    | inr (e, due) ↦ rw due (taken-IsKeyed _ c v)
  ]

  delete_network-IsKeyed :
      (uuid : String) (c : Account) → IsKeyed c → IsKeyed (delete_network problem_text uuid c).1
  unfolding delete_network recorded record_call
  delete_network-IsKeyed uuid c v = elim (Option-cases c.fail_next) [
    | inl quiet ↦ elim (Option-cases (lookup uuid c.networks)) [
      | inl missing ↦ rw (quiet, missing) (taken-IsKeyed _ c v)
      | inr (n, held) ↦ rw (quiet, held) (erase_network-IsKeyed uuid _ (taken-IsKeyed _ c v))
    ]
    | inr (e, due) ↦ rw due (taken-IsKeyed _ c v)
  ]

  set_router-IsKeyed :
      (call : String) (uuid : String) (router : String) (c : Account)
      → IsKeyed c
      → IsKeyed (set_router problem_text call uuid router c).1
  unfolding set_router recorded record_call
  set_router-IsKeyed call uuid router c v = elim (Option-cases c.fail_next) [
    | inl quiet ↦ elim (Option-cases (lookup uuid c.networks)) [
      | inl missing ↦ rw (quiet, missing) (taken-IsKeyed _ c v)
      | inr (n, held) ↦
          rw (quiet, held)
            (put_network-IsKeyed uuid _ _ (v.network-uuid uuid n held) (taken-IsKeyed _ c v))
    ]
    | inr (e, due) ↦ rw due (taken-IsKeyed _ c v)
  ]

  delete_router-IsKeyed :
      (uuid : String) (c : Account) → IsKeyed c → IsKeyed (delete_router problem_text uuid c).1
  unfolding delete_router recorded record_call
  delete_router-IsKeyed uuid c v = elim (Option-cases c.fail_next) [
    | inl quiet ↦ elim (Option-cases (lookup uuid c.routers)) [
      | inl missing ↦ rw (quiet, missing) (taken-IsKeyed _ c v)
      | inr (n, held) ↦ elim (Bool-cases (router_in_use uuid c.networks)) [
        | inl used ↦ rw (quiet, held, used) (taken-IsKeyed _ c v)
        | inr free ↦ rw (quiet, held, free) (erase_router-IsKeyed uuid _ (taken-IsKeyed _ c v))
      ]
    ]
    | inr (e, due) ↦ rw due (taken-IsKeyed _ c v)
  ]

  -- In every state that calls on networks and routers lead to from a new account, each network and
  -- each router stands under its own UUID, whichever calls fail.
  pub Reachable-IsKeyed : {c : Account} → Reachable c → IsKeyed c
  unfolding get_networks get_network_details attach_network_router detach_network_router get_routers
      get_router_details
  Reachable-IsKeyed start = record {
    network-uuid = λ k n held. ground arith;
    router-uuid = λ k r held. ground arith;
  }
  Reachable-IsKeyed (armed e s) =
      let v = Reachable-IsKeyed s in
      record { network-uuid = v.network-uuid; router-uuid = v.router-uuid }
  Reachable-IsKeyed (got_networks fs s) = logged-IsKeyed _ _ (Reachable-IsKeyed s)
  Reachable-IsKeyed (got_routers fs s) = logged-IsKeyed _ _ (Reachable-IsKeyed s)
  Reachable-IsKeyed (got_network {c} uuid s) = elim (Option-cases (lookup uuid c.networks)) [
    | inl missing ↦ rw missing (logged-IsKeyed _ c (Reachable-IsKeyed s))
    | inr (n, held) ↦ rw held (logged-IsKeyed _ c (Reachable-IsKeyed s))
  ]
  Reachable-IsKeyed (got_router {c} uuid s) = elim (Option-cases (lookup uuid c.routers)) [
    | inl missing ↦ rw missing (logged-IsKeyed _ c (Reachable-IsKeyed s))
    | inr (r, held) ↦ rw held (logged-IsKeyed _ c (Reachable-IsKeyed s))
  ]
  Reachable-IsKeyed (created_network {c} r s) = create_network-IsKeyed r c (Reachable-IsKeyed s)
  Reachable-IsKeyed (created_router {c} r s) = create_router-IsKeyed r c (Reachable-IsKeyed s)
  Reachable-IsKeyed (modified_network {c} r s) = modify_network-IsKeyed r c (Reachable-IsKeyed s)
  Reachable-IsKeyed (modified_router {c} r s) = modify_router-IsKeyed r c (Reachable-IsKeyed s)
  Reachable-IsKeyed (deleted_network {c} uuid s) =
      delete_network-IsKeyed uuid c (Reachable-IsKeyed s)
  Reachable-IsKeyed (attached_router {c} uuid router s) =
      set_router-IsKeyed "AttachNetworkRouter" uuid router c (Reachable-IsKeyed s)
  Reachable-IsKeyed (detached_router {c} uuid s) =
      set_router-IsKeyed "DetachNetworkRouter" uuid "" c (Reachable-IsKeyed s)
  Reachable-IsKeyed (deleted_router {c} uuid s) = delete_router-IsKeyed uuid c (Reachable-IsKeyed s)
