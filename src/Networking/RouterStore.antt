-- ===== src/Networking/RouterStore.antt =====
-- What the Router adapter relies on of the UpCloud API: an account holds routers by UUID, and the
-- calls read and change them as they say. A call may fail at any time.
use upcloud_operator.Prelude.{String, ◌≡◌, Option, some, none, true, ok, err}
use upcloud_operator.Errors.{Err, is_not_found}
use upcloud_operator.Networking.Upcloud.{Router, ModifyRouter, NetworkApi}
use upcloud_operator.Networking.Convert.{ptr_default, user_routes}

-- `new` is `old` after the request. UpCloud may type the routes that it is sent as user routes, and
-- may hold routes of its own beside them.
pub record IsModified (r : ModifyRouter) (old new : Router) : Type 0 where
  pub name : new.name ≡ r.name
  pub labels : new.labels ≡ ptr_default r.labels old.labels
  pub routes :
      user_routes new.static_routes ≡ user_routes (ptr_default r.static_routes old.static_routes)

pub record IsRouterStore {C : Type 0} (api : NetworkApi C) : Type 1 where
  -- The states that the API keeps.
  pub IsValid : C → Type 0
  -- The account's routers.
  pub router : C → String → Option Router
  pub get-found :
      (uuid : String) (c : C) (rt : Router)
      → router c uuid ≡ some rt
      → (api.get_router_details uuid c).0 ≡ ok rt
  pub modified : (r : ModifyRouter) (c : C) (old : Router) → Router
  pub modify-existing :
      (r : ModifyRouter) (c : C) (rt : Router)
      → (api.modify_router r c).0 ≡ ok rt
      → (old : Router) × (router c r.uuid ≡ some old)
  pub modify-applies :
      (r : ModifyRouter) (c : C) (old rt : Router)
      → router c r.uuid ≡ some old
      → (api.modify_router r c).0 ≡ ok rt
      → router (api.modify_router r c).1 r.uuid ≡ some (modified r c old)
  pub modified-IsModified :
      (r : ModifyRouter) (c : C) (old : Router) → IsModified r old (modified r c old)
  pub delete-applies :
      (uuid : String) (c : C)
      → (api.delete_router uuid c).0 ≡ ok tt
      → router (api.delete_router uuid c).1 uuid ≡ none
  -- Not found is the answer only if there is no such router.
  pub delete-missing :
      (uuid : String) (c : C) (e : Err)
      → IsValid c
      → (api.delete_router uuid c).0 ≡ err e
      → is_not_found e ≡ true
      → router (api.delete_router uuid c).1 uuid ≡ none
