-- ===== src/Tests/Slot.antt =====
-- An account that holds at most one resource, as the simplest that keeps the laws of a store.
use upcloud_operator.Prelude.{◌≡◌, refl, Option, none, some, ok, err}
use upcloud_operator.Errors.{Err, problem}
use upcloud_operator.Networking.Upcloud.{ApiCall}
use upcloud_operator.Networking.Store.{IsStore, IsApplied}

abbrev pub missing : Err
missing = problem 404 "not found" "not found"

unfoldable pub slot_get : {I R : Type 0} → I → ApiCall (Option R) R
slot_get id none = (err missing, none)
slot_get id (some r) = (ok r, some r)

unfoldable pub slot_modify : {R Q : Type 0} → (Q → R → R) → Q → ApiCall (Option R) R
slot_modify modified q none = (err missing, none)
slot_modify modified q (some r) = (ok (modified q r), some (modified q r))

unfoldable pub slot_delete : {I R : Type 0} → I → ApiCall (Option R) (Unit {0})
slot_delete id none = (err missing, none)
slot_delete id (some r) = (ok tt, none)

get_found :
    {I R : Type 0} (id : I) (c : Option R) (r : R) → c ≡ some r → (slot_get {R = R} id c).0 ≡ ok r
unfolding slot_get
get_found id none r held = cc
get_found id (some s) r held = cc

get_keeps : {I R : Type 0} (id : I) (c : Option R) → (slot_get {R = R} id c).1 ≡ c
unfolding slot_get
get_keeps id none = refl
get_keeps id (some r) = refl

delete_empties : {I R : Type 0} (id : I) (c : Option R) → (slot_delete {R = R} id c).1 ≡ none
unfolding slot_delete
delete_empties id none = refl
delete_empties id (some r) = refl

module _ {I R Q : Type 0} (target : Q → I) (modified : Q → R → R) where
  modify_applies :
      (q : Q) (c : Option R) (r : R)
      → (slot_modify modified q c).0 ≡ ok r
      → IsApplied (λ (d : Option R) (i : I). d) modified (target q) q c (slot_modify modified q c).1
  unfolding slot_modify
  modify_applies q none r done = cc
  modify_applies q (some old) r done = record { old = old; was = refl; is_now = refl }

  unfoldable pub slot_store : IsStore slot_get (slot_modify modified) slot_delete target modified
  unfolding get_found get_keeps modify_applies delete_empties
  slot_store = record {
    IsValid = λ c. Unit;
    held = λ c id. c;
    get-found = get_found;
    get-keeps = λ id c j. get_keeps id c;
    modify-applies = modify_applies;
    delete-applies = λ id c done. delete_empties id c;
    delete-missing = λ id c e valid answer gone. delete_empties id c;
  }
