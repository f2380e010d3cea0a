-- ===== src/Networking/NetworkAdapter/Deletes.antt =====
-- What a Delete that succeeds leaves in the account.
use upcloud_operator.Prelude.{
  String, ◌≡◌, ◌==◌, Bool-cases, false, inl, inr, none, ok, Result-cases, Result,
}
use upcloud_operator.Errors.{Err, is_not_found, is_conflict}
use upcloud_operator.Kube.{Library}
use upcloud_operator.Effects.{World, Call, deleted}
use upcloud_operator.Networking.Types.{Network, Router}
use upcloud_operator.Networking.Upcloud.{NetworkApi}
use upcloud_operator.Networking.NetworkStore.{IsNetworkStore}
use upcloud_operator.Networking.NetworkAdapter.{delete}

module _ {C K : Type 0} (L : Library) (api : NetworkApi C)
    (read_router : K → String → String → Result Err Router) (S : IsNetworkStore api) where
  -- If Delete succeeds in a valid state of the account, for an object with a UUID, then the account
  -- holds no network with that UUID any more.
  pub network-delete :
      (s : Call Network (World C K))
      → S.IsValid s.world.cloud
      → (s.obj.status.uuid == "") ≡ false
      → (delete L api read_router s).0 ≡ ok tt
      → S.network (delete L api read_router s).1.world.cloud s.obj.status.uuid ≡ none
  unfolding delete deleted
  network-delete s valid known done =
      let uuid = s.obj.status.uuid in
      let c = s.world.cloud in
      Result-cases _ (api.delete_network uuid c).0
        (λ _ answer. rw known (S.delete-applies uuid c answer))
        (λ e answer. elim (Bool-cases (is_not_found e)) [
          | inl missing ↦ rw known (S.delete-missing uuid c e valid answer missing)
          | inr other ↦ elim (Bool-cases (is_conflict e)) [
            | inl busy ↦ cc (rw (known, answer, other, busy) at done)
            | inr hard ↦ cc (rw (known, answer, other, hard) at done)
          ]
        ])
