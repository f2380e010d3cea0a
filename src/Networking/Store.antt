-- ===== src/Networking/Store.antt =====
-- What an adapter relies on of the UpCloud API for one kind of resource: an account holds resources
-- under their identifiers, and the calls read and change them as they say. A call may fail at any
-- time.
use upcloud_operator.Prelude.{
  String, ◌≡◌, Option, none, some, true, Result-cases, ok, err, Bool-cases, inl, inr,
}
use upcloud_operator.Errors.{Err, is_not_found, is_conflict}
use upcloud_operator.Effects.{deleted}
use upcloud_operator.Networking.Upcloud.{ApiCall}

-- A modification that succeeded: the resource as it was, and as it is after the request.
pub record IsApplied {C I R Q : Type 0} (held : C → I → Option R) (modified : Q → R → R) (id : I)
    (q : Q) (c c' : C) : Type 0 where
  pub old : R
  pub was : held c id ≡ some old
  pub is_now : held c' id ≡ some (modified q old)

-- `modified q old` is the resource `old` after the request `q`, and `target q` is the identifier
-- that the request names.
pub record IsStore {C I R Q : Type 0} (get : I → ApiCall C R) (modify : Q → ApiCall C R)
    (delete : I → ApiCall C (Unit {0})) (target : Q → I) (modified : Q → R → R) : Type 1 where
  -- The states that the API keeps.
  pub IsValid : C → Type 0
  -- The account's resources.
  pub held : C → I → Option R
  pub get-found : (id : I) (c : C) (r : R) → held c id ≡ some r → (get id c).0 ≡ ok r
  pub get-keeps : (id : I) (c : C) (j : I) → held (get id c).1 j ≡ held c j
  pub modify-applies :
      (q : Q) (c : C) (r : R)
      → (modify q c).0 ≡ ok r
      → IsApplied held modified (target q) q c (modify q c).1
  pub delete-applies : (id : I) (c : C) → (delete id c).0 ≡ ok tt → held (delete id c).1 id ≡ none
  -- Not found is the answer only if there is no such resource.
  pub delete-missing :
      (id : I) (c : C) (e : Err)
      → IsValid c
      → (delete id c).0 ≡ err e
      → is_not_found e ≡ true
      → held (delete id c).1 id ≡ none

module _ {C I R Q : Type 0} {get : I → ApiCall C R} {modify : Q → ApiCall C R}
    {delete : I → ApiCall C (Unit {0})} {target : Q → I} {modified : Q → R → R}
    (S : IsStore get modify delete target modified) where
  -- The common end of Delete succeeds only if the resource is gone.
  pub deleted-gone :
      (context : String) (id : I) (c : C)
      → S.IsValid c
      → deleted context (delete id c).0 ≡ ok tt
      → S.held (delete id c).1 id ≡ none
  unfolding deleted
  deleted-gone context id c valid done =
      Result-cases _ (delete id c).0 (λ _ answer. S.delete-applies id c answer)
        (λ e answer. elim (Bool-cases (is_not_found e)) [
          | inl missing ↦ S.delete-missing id c e valid answer missing
          | inr other ↦ elim (Bool-cases (is_conflict e)) [
            | inl busy ↦ cc (rw (answer, other, busy) at done)
            | inr hard ↦ cc (rw (answer, other, hard) at done)
          ]
        ])
