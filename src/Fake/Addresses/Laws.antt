-- ===== src/Fake/Addresses/Laws.antt =====
-- The in-memory account keeps the laws that the adapter relies on.
use upcloud_operator.Prelude.{
  ℕ, String, ◌≡◌, refl, true, Option-cases, inl, inr, none, some, ok, err, lookup,
}
use upcloud_operator.Errors.{Err, is_not_found}
use upcloud_operator.Networking.Upcloud.{IpAddress, ModifyAddress}
use upcloud_operator.Networking.Store.{IsApplied}
use upcloud_operator.Networking.FloatingIpAdapter.Laws.{modified, IsAddressStore}
use upcloud_operator.Fake.Network.{Account, recorded, record_call}
use upcloud_operator.Fake.Network.Laws.{
  IsHonest, due_not_missing, lookup-insert_self, lookup-erase_self,
}
use upcloud_operator.Fake.Addresses.{
  get_ip_address_details, modify_ip_address, release_ip_address, address_api,
}

module _ (problem_text : ℕ → String → String) where
  get_found :
      (key : String) (c : Account) (r : IpAddress)
      → lookup key c.ips ≡ some r
      → (get_ip_address_details problem_text key c).0 ≡ ok r
  unfolding get_ip_address_details
  get_found key c r held = rw held refl

  get_keeps :
      (key : String) (c : Account) (j : String)
      → lookup j (get_ip_address_details problem_text key c).1.ips ≡ lookup j c.ips
  unfolding get_ip_address_details
  get_keeps key c j = elim (Option-cases (lookup key c.ips)) [
    | inl missing ↦ rw missing refl
    | inr (r, held) ↦ rw held refl
  ]

  modify_applies :
      (q : ModifyAddress) (c : Account) (r : IpAddress)
      → (modify_ip_address problem_text q c).0 ≡ ok r
      → IsApplied
          (λ (d : Account) k. lookup k d.ips)
          modified
          q.address
          q
          c
          (modify_ip_address problem_text q c).1
  unfolding modify_ip_address recorded record_call
  modify_applies q c r done = elim (Option-cases c.fail_next) [
    | inl quiet ↦ elim (Option-cases (lookup q.address c.ips)) [
      | inl missing ↦ cc (rw (quiet, missing) at done)
      | inr (old, held) ↦ record {
        old = old;
        was = held;
        is_now = rw (quiet, held) (lookup-insert_self q.address (modified q old) c.ips);
      }
    ]
    | inr (e, due) ↦ cc (rw due at done)
  ]

  delete_applies :
      (key : String) (c : Account)
      → (release_ip_address problem_text key c).0 ≡ ok tt
      → lookup key (release_ip_address problem_text key c).1.ips ≡ none
  unfolding release_ip_address recorded record_call
  delete_applies key c done = elim (Option-cases c.fail_next) [
    | inl quiet ↦ elim (Option-cases (lookup key c.ips)) [
      | inl missing ↦ cc (rw (quiet, missing) at done)
      | inr (a, held) ↦ rw (quiet, held) (lookup-erase_self key c.ips)
    ]
    | inr (e, due) ↦ cc (rw due at done)
  ]

  delete_missing :
      (key : String) (c : Account) (e : Err)
      → IsHonest c
      → (release_ip_address problem_text key c).0 ≡ err e
      → is_not_found e ≡ true
      → lookup key (release_ip_address problem_text key c).1.ips ≡ none
  unfolding release_ip_address recorded record_call
  delete_missing key c e v answer missing = elim (Option-cases c.fail_next) [
    | inl quiet ↦ elim (Option-cases (lookup key c.ips)) [
      | inl gone ↦ rw (quiet, gone) gone
      | inr (a, held) ↦ cc (rw (quiet, held) at answer)
    ]
    | inr (d, due) ↦ absurd (due_not_missing c d e v due (rw due at answer) missing)
  ]

  pub address_api_store : IsAddressStore (address_api problem_text)
  address_api_store = record {
    IsValid = IsHonest;
    held = λ c key. lookup key c.ips;
    get-found = get_found;
    get-keeps = get_keeps;
    modify-applies = modify_applies;
    delete-applies = delete_applies;
    delete-missing = delete_missing;
  }

  -- An account in which no failure is pending is valid.
  pub address_api_store-IsValid : (c : Account) → c.fail_next ≡ none → (address_api_store).IsValid c
  unfolding address_api_store
  address_api_store-IsValid c quiet = record { honest = λ e due. cc }

  -- What the store holds is what the map holds.
  pub address_api_store-held :
      (c : Account) (key : String) (r : IpAddress)
      → lookup key c.ips ≡ some r
      → (address_api_store).held c key ≡ some r
  unfolding address_api_store
  address_api_store-held c key r held = held
