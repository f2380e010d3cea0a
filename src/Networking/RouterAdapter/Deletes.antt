-- ===== src/Networking/RouterAdapter/Deletes.antt =====
-- What a Delete that succeeds leaves in the account.
use upcloud_operator.Prelude.{◌≡◌, ◌==◌, Bool-cases, false, inl, inr, none, ok, Result-cases}
use upcloud_operator.Errors.{is_not_found, is_conflict}
use upcloud_operator.Effects.{World, Call, deleted}
use upcloud_operator.Networking.Types.{Router}
use upcloud_operator.Networking.Upcloud.{NetworkApi}
use upcloud_operator.Networking.RouterStore.{IsRouterStore}
use upcloud_operator.Networking.RouterAdapter.{delete}

module _ {C K : Type 0} (api : NetworkApi C) (S : IsRouterStore api) where
  -- If Delete succeeds in a valid state of the account, for an object with a UUID, then the account
  -- holds no router with that UUID any more.
  pub router-delete :
      (s : Call Router (World C K))
      → S.IsValid s.world.cloud
      → (s.obj.status.uuid == "") ≡ false
      → (delete api s).0 ≡ ok tt
      → S.router (delete api s).1.world.cloud s.obj.status.uuid ≡ none
  unfolding delete deleted
  router-delete s valid known done =
      let uuid = s.obj.status.uuid in
      let c = s.world.cloud in
      Result-cases _ (api.delete_router uuid c).0
        (λ _ answer. rw known (S.delete-applies uuid c answer))
        (λ e answer. elim (Bool-cases (is_not_found e)) [
          | inl missing ↦ rw known (S.delete-missing uuid c e valid answer missing)
          | inr other ↦ elim (Bool-cases (is_conflict e)) [
            | inl busy ↦ cc (rw (known, answer, other, busy) at done)
            | inr hard ↦ cc (rw (known, answer, other, hard) at done)
          ]
        ])
