-- ===== src/Fake/Peerings/Laws.antt =====
-- The in-memory account keeps the laws that the adapter relies on.
use upcloud_operator.Prelude.{
  ℕ, String, ◌≡◌, refl, true, Option-cases, inl, inr, none, some, ok, err, lookup,
}
use upcloud_operator.Errors.{Err, is_not_found}
use upcloud_operator.Networking.Upcloud.{NetworkPeering, ModifyPeering}
use upcloud_operator.Networking.Store.{IsApplied}
use upcloud_operator.Networking.PeeringAdapter.Laws.{modified, IsPeeringStore}
use upcloud_operator.Fake.Network.{Account, recorded, record_call}
use upcloud_operator.Fake.Network.Laws.{
  IsHonest, due_not_missing, lookup-insert_self, lookup-erase_self,
}
use upcloud_operator.Fake.Peerings.{
  get_network_peering, modify_network_peering, delete_network_peering, peering_api,
}

module _ (problem_text : ℕ → String → String) where
  get_found :
      (key : String) (c : Account) (r : NetworkPeering)
      → lookup key c.peerings ≡ some r
      → (get_network_peering problem_text key c).0 ≡ ok r
  unfolding get_network_peering
  get_found key c r held = rw held refl

  get_keeps :
      (key : String) (c : Account) (j : String)
      → lookup j (get_network_peering problem_text key c).1.peerings ≡ lookup j c.peerings
  unfolding get_network_peering
  get_keeps key c j = elim (Option-cases (lookup key c.peerings)) [
    | inl missing ↦ rw missing refl
    | inr (r, held) ↦ rw held refl
  ]

  modify_applies :
      (q : ModifyPeering) (c : Account) (r : NetworkPeering)
      → (modify_network_peering problem_text q c).0 ≡ ok r
      → IsApplied
          (λ (d : Account) k. lookup k d.peerings)
          modified
          q.uuid
          q
          c
          (modify_network_peering problem_text q c).1
  unfolding modify_network_peering recorded record_call
  modify_applies q c r done = elim (Option-cases c.fail_next) [
    | inl quiet ↦ elim (Option-cases (lookup q.uuid c.peerings)) [
      | inl missing ↦ cc (rw (quiet, missing) at done)
      | inr (old, held) ↦ record {
        old = old;
        was = held;
        is_now = rw (quiet, held) (lookup-insert_self q.uuid (modified q old) c.peerings);
      }
    ]
    | inr (e, due) ↦ cc (rw due at done)
  ]

  delete_applies :
      (key : String) (c : Account)
      → (delete_network_peering problem_text key c).0 ≡ ok tt
      → lookup key (delete_network_peering problem_text key c).1.peerings ≡ none
  unfolding delete_network_peering recorded record_call
  delete_applies key c done = elim (Option-cases c.fail_next) [
    | inl quiet ↦ elim (Option-cases (lookup key c.peerings)) [
      | inl missing ↦ cc (rw (quiet, missing) at done)
      | inr (a, held) ↦ rw (quiet, held) (lookup-erase_self key c.peerings)
    ]
    | inr (e, due) ↦ cc (rw due at done)
  ]

  delete_missing :
      (key : String) (c : Account) (e : Err)
      → IsHonest c
      → (delete_network_peering problem_text key c).0 ≡ err e
      → is_not_found e ≡ true
      → lookup key (delete_network_peering problem_text key c).1.peerings ≡ none
  unfolding delete_network_peering recorded record_call
  delete_missing key c e v answer missing = elim (Option-cases c.fail_next) [
    | inl quiet ↦ elim (Option-cases (lookup key c.peerings)) [
      | inl gone ↦ rw (quiet, gone) gone
      | inr (a, held) ↦ cc (rw (quiet, held) at answer)
    ]
    | inr (d, due) ↦ absurd (due_not_missing c d e v due (rw due at answer) missing)
  ]

  pub peering_api_store : IsPeeringStore (peering_api problem_text)
  peering_api_store = record {
    IsValid = IsHonest;
    held = λ c key. lookup key c.peerings;
    get-found = get_found;
    get-keeps = get_keeps;
    modify-applies = modify_applies;
    delete-applies = delete_applies;
    delete-missing = delete_missing;
  }

  -- An account in which no failure is pending is valid.
  pub peering_api_store-IsValid : (c : Account) → c.fail_next ≡ none → (peering_api_store).IsValid c
  unfolding peering_api_store
  peering_api_store-IsValid c quiet = record { honest = λ e due. cc }

  -- What the store holds is what the map holds.
  pub peering_api_store-held :
      (c : Account) (key : String) (r : NetworkPeering)
      → lookup key c.peerings ≡ some r
      → (peering_api_store).held c key ≡ some r
  unfolding peering_api_store
  peering_api_store-held c key r held = held
