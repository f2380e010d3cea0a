-- ===== src/Databases/DatabaseAdapter/Publishes.antt =====
-- A database that is reported as ready has its connection Secret.
use upcloud_operator.Prelude.{
  String, ◌≡◌, ap, ◌∙◌, true, false, ◌==◌, Bool, some, Result, Result-cases, Option-cases, inl, inr,
  ok, err, lookup,
}
use upcloud_operator.Errors.{Err}
use upcloud_operator.Kube.{Library}
use upcloud_operator.Kube.Secrets.{
  Secret, SecretClient, IsSecretClient, write_owned_secret, write_owned_secret-holds,
}
use upcloud_operator.Effects.{World, Call}
use upcloud_operator.Reconciler.{Observation}
use upcloud_operator.Networking.Types.{Network}
use upcloud_operator.Databases.Types.{Database, connection_secret_name, desired_powered}
use upcloud_operator.Databases.Upcloud
use upcloud_operator.Databases.Upcloud.{Json, DatabaseApi, DatabaseNetwork}
use upcloud_operator.Databases.DatabaseAdapter.{
  networks_of, write_connection_secret, publish, observe_found, observe,
}
use upcloud_operator.Databases.Drift.{
  DatabaseStates, state_ready, connection, lookup_database, with_found,
}

-- What an observation says of readiness.
abbrev says_ready : Result Err Observation → Bool
says_ready (ok seen) = seen.ready
says_ready (err e) = false

module _ {J C K : Type 0} (L : Library) (V : Json J) (st : DatabaseStates) (api : DatabaseApi J C)
    (W : SecretClient K) (read_network : K → String → String → Result Err Network)
    (laws : IsSecretClient W) where
  -- The connection Secret of the object is there and holds the connection details of the database,
  -- each under its own key.
  abbrev pub HasConnection : Database → K → Upcloud.Database J → Type 0
  HasConnection d k db =
      (after : Secret) × (laws.secret k d.meta.namespace (connection_secret_name d) ≡ some after)
      × (lookup "uri" after.data' ≡ some db.service_uri)
      × (lookup "host" after.data' ≡ some db.service_uri_params.host)
      × (lookup "port" after.data' ≡ some db.service_uri_params.port)
      × (lookup "user" after.data' ≡ some db.service_uri_params.user)
      × (lookup "password" after.data' ≡ some db.service_uri_params.password)
      × (lookup "dbname" after.data' ≡ some db.service_uri_params.database_name)
      × (lookup "sslmode" after.data' ≡ some db.service_uri_params.ssl_mode)

  write_connection_secret-holds :
      (db : Upcloud.Database J) (s : Call Database (World C K))
      → (write_connection_secret L V st api W read_network db s).0 ≡ ok tt
      → HasConnection s.obj
          (write_connection_secret L V st api W read_network db s).1.world.cluster
          db
  unfolding write_connection_secret connection lookup
  write_connection_secret-holds db s done =
      let name = connection_secret_name s.obj in
      let k = s.world.cluster in
      elim (Option-cases (write_owned_secret W s.obj.meta name (connection db) k).0) [
        | inl written ↦
            let (after, held, filled) =
              write_owned_secret-holds W laws s.obj.meta name (connection db) k written in
            (
              after,
              held,
              ap (lookup "uri") filled,
              ap (lookup "host") filled,
              ap (lookup "port") filled,
              ap (lookup "user") filled,
              ap (lookup "password") filled,
              ap (lookup "dbname") filled,
              ap (lookup "sslmode") filled,
            )
        | inr (e, failed) ↦ cc (rw failed at done)
      ]

  publish-holds :
      (db : Upcloud.Database J) (s : Call Database (World C K))
      → state_ready st db s.obj ≡ true
      → (db.service_uri_params.host == "") ≡ false
      → (publish L V st api W read_network db s).0 ≡ ok tt
      → HasConnection s.obj (publish L V st api W read_network db s).1.world.cluster db
  unfolding publish
  publish-holds db s ready host done =
      rw (ready, host) (write_connection_secret-holds db s (rw (ready, host) at done))

  observe_found-publishes :
      (db : Upcloud.Database J) (s : Call Database (World C K)) (seen : Observation)
      → (observe_found L V st api W read_network (some db) s).0 ≡ ok seen
      → seen.ready ≡ true
      → (db.service_uri_params.host == "") ≡ false
      → HasConnection s.obj (observe_found L V st api W read_network (some db) s).1.world.cluster db
  unfolding observe_found connection_secret_name state_ready desired_powered
  observe_found-publishes db s seen done ready host =
      let t : Call Database (World C K) = record s { obj = with_found V s.obj db } in
      Result-cases _ (networks_of L V st api W read_network s.obj s.world.cluster)
        (λ networks found.
          Result-cases _ (publish L V st api W read_network db t).0
            (λ u published.
              let settled : state_ready st db s.obj ≡ true =
                ap says_ready (rw (found, published) at done) ∙ ready in
              rw (found, published) (publish-holds db t settled host published))
            (λ e failed. cc (rw (found, failed) at done)))
        (λ e failed. cc (rw failed at done))

  -- If the database is found, and Observe reports without an error that it is ready, and it has a
  -- host, then the connection Secret holds its URI, host, port, user, password, database name and
  -- TLS mode, each under its own key.
  pub observe-publishes :
      (s : Call Database (World C K)) (db : Upcloud.Database J) (seen : Observation)
      → (lookup_database api s.obj s.world.cloud).0 ≡ ok (some db)
      → (observe L V st api W read_network s).0 ≡ ok seen
      → seen.ready ≡ true
      → (db.service_uri_params.host == "") ≡ false
      → HasConnection s.obj (observe L V st api W read_network s).1.world.cluster db
  unfolding observe
  observe-publishes s db seen found done ready host = rw found (
      observe_found-publishes db
        (record s {
          world = record (s.world) { cloud = (lookup_database api s.obj s.world.cloud).1 };
        })
        seen (rw found at done) ready host)
