-- ===== src/Effects.antt =====
-- Methods of an adapter: they change the object that they are given and the world, which is the
-- UpCloud account and the Kubernetes API server, and return a value or an error.
use upcloud_operator.Prelude.{String, Option, none, some, Result, ok, err, map_err, if◌then◌else◌}
use upcloud_operator.Errors.{Err, wrap, is_not_found, is_conflict, pending_because}

-- The UpCloud side and the Kubernetes side.
pub record World (C K : Type 0) : Type 0 where
  pub cloud : C
  pub cluster : K

-- The object that a method works on, and the world.
pub record Call (T W : Type 0) : Type 0 where
  pub obj : T
  pub world : W

abbrev pub Method : Type 0 → Type 0 → Type 0 → Type 0
Method T W A = Call T W → Result Err A × Call T W

module _ {T W A : Type 0} where
  -- return v, nil
  abbrev pub pure : A → Method T W A
  pure a s = (ok a, s)

  -- return err
  abbrev pub fail_with : Err → Method T W A
  fail_with e s = (err e, s)

  -- A pure call.
  abbrev pub lift : Result Err A → Method T W A
  lift r s = (r, s)

  -- v, err := m(): what the caller does next sees both, and nothing is returned yet.
  abbrev pub attempt : Method T W A → Method T W (Result Err A)
  attempt m s = let (r, s') = m s in (ok r, s')

module _ {T W A B : Type 0} where
  abbrev pub continue : Result Err A → (A → Method T W B) → Method T W B
  continue (ok a) f s = f a s
  continue (err e) f s = (err e, s)

  -- v, err := m(); if err != nil { return err }
  infixl 10 ◌>>=◌ ◌>>◌
  abbrev pub ◌>>=◌ : Method T W A → (A → Method T W B) → Method T W B
  ◌>>=◌ m f s = let (r, s') = m s in continue r f s'

  abbrev pub ◌>>◌ : Method T W A → Method T W B → Method T W B
  m >> n = m >>= λ _. n

module _ {T W : Type 0} where
  abbrev pub get_obj : Method T W T
  get_obj s = (ok s.obj, s)

  abbrev pub set_obj : T → Method T W (Unit {0})
  set_obj obj s = (ok tt, record s { obj = obj })

module _ {T W A : Type 0} where
  -- v, err := m(); if err != nil { return fmt.Errorf("context: %w", err) }
  abbrev pub wrapping : String → Method T W A → Method T W A
  wrapping context m s = let (r, s') = m s in (map_err (wrap context) r, s')

-- v, err := get(); if IsNotFound(err) { return nil, nil }; return v, err
unfoldable pub missing_as_none : {A : Type 0} → Result Err A → Result Err (Option A)
missing_as_none (ok a) = ok (some a)
missing_as_none (err e) = if is_not_found e then ok none else err e

module _ {T C K A : Type 0} where
  -- A call of the UpCloud API.
  abbrev pub cloud_call : (C → Result Err A × C) → Method T (World C K) A
  cloud_call f s =
      let (r, c) = f s.world.cloud in (r, record s { world = record (s.world) { cloud = c } })

  -- A read of the Kubernetes API.
  abbrev pub reading : (K → Result Err A) → Method T (World C K) A
  reading f s = (f s.world.cluster, s)

-- The common end of every Delete: an error that is a conflict is an operation in progress, and a
-- missing resource is deleted.
unfoldable pub deleted : String → Result Err (Unit {0}) → Result Err (Unit {0})
deleted context (ok _) = ok tt
deleted context (err e) =
    if is_not_found e
    then ok tt
    else if is_conflict e
    then err (pending_because e)
    else err (wrap context e)
