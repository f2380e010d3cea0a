-- ===== src/Lib.antt =====
-- A model of the UpCloud operator for Kubernetes.
--
-- The operator reconciles custom resources with an UpCloud account. One generic loop
-- (internal/reconciler) fetches an object, guards it with a finalizer, and calls an adapter of the
-- object's kind (internal/controller) that observes, creates, updates or deletes the external
-- resource; the loop then writes the Ready condition and says when the next pass is due. Adapters
-- find what they own by labels (internal/upcloudapi/labels.go), resolve references to other
-- objects (internal/resolve), and tell errors apart by their HTTP status
-- (internal/upcloudapi/errors.go).
--
-- Files:
--   Prelude      Boolean tests, results, lists as slices, maps and sets, the order of strings,
--                and slices.SortFunc (Prelude/Sorting)
--   Errors       internal/upcloudapi/errors.go, the sentinels of internal/reconciler/reconciler.go,
--                and errors.Is, errors.As, errors.Join and fmt.Errorf on the errors of the code
--   Kube         object metadata, reconciler.Object, and the Kubernetes functions and client, which
--                are parameters; Kube/Model has functions with the behaviour assumed of them
--   Effects      methods of an adapter: they take and return the object and the world, which is the
--                UpCloud account and the API server, and return a value or an error
--   Reconciler   internal/reconciler/reconciler.go; Conditions is conditions.go, Options the
--                intervals. Verdict, Requeue, Reports, Finalizer and Settles
--                have the theorems
--   Labels       internal/upcloudapi/labels.go
--   Resolve      internal/resolve/resolve.go
--   Networking   api/network/v1alpha1 and internal/controller/network: Types has the custom
--                resources, Upcloud the part of the SDK that the adapters use, Convert convert.go,
--                NetworkAdapter, RouterAdapter, PeeringAdapter and FloatingIpAdapter the
--                adapters. NetworkStore, RouterStore and Store are the interfaces that state what
--                the adapters rely on of the UpCloud API
--   Gateways     the gateway kinds of the same directories: Sets has the comparisons of features
--                and routes, GatewayAdapter, ConnectionAdapter and TunnelAdapter the adapters
--   Storage      api/objectstorage/v1alpha1 and internal/controller/objectstorage: an adapter per
--                kind, of which Service is ManagedObjectStorage; Calls has what they do alike.
--                Kube/Secrets is internal/k8s/secret.go
--   Databases    api/database/v1alpha1 and internal/controller/database: DatabaseAdapter is
--                ManagedDatabase, UserAdapter and LogicalAdapter the users and the logical
--                databases of one; Drift, Passwords and Access have their comparisons and requests
--   Balancers    the frontend rules of api/loadbalancer/v1alpha1 and
--                internal/controller/loadbalancer: RuleConvert is convert_rules.go, RuleAdapter the
--                adapter
--   Fake         internal/upcloudapi/fake/network.go: the in-memory API, which fills the interfaces of
--                the networks, routers, peerings and addresses
--   Tests        the theorems at concrete inputs
--
-- State. An adapter method is a function from a call (the object and the world) to a result and
-- the call after it; what was written before an error stays written. A pass of the loop maps the
-- world to an outcome and a world. Go maps with string keys are association lists, and the order in
-- which Go visits a map is the order of the list. A Go slice that is sorted by SortFunc is sorted by
-- insertion, since the theorems that depend on the order of equal elements exclude them.
-- Intervals are integers of nanoseconds, which the code only compares with 0 and copies.
--
-- Parameters. The UpCloud API and the Kubernetes client and libraries are not part of the
-- repository: they are arguments, and theorems that rely on them take their laws as records. The same
-- holds for encoding/json and strconv in the database group, and for reflect.DeepEqual on frontend
-- rules. An UpCloud call may fail at any time.
--
-- The loop over the pages of the bucket metrics runs on fuel; fuel for one page more than a service
-- has is enough, which is proved. No other loop of the code needs a bound. The decimal digits of the
-- in-memory API's UUIDs are computed with the number itself as fuel, which is at least its number of
-- digits.
--
-- Not modelled: logging, context cancellation, mutexes, the registration of controllers and
-- watches, the other kinds of the load balancer group, and the in-memory API of the groups other
-- than networks.
pub mod Prelude
pub mod Errors
pub mod Kube
pub mod Effects
pub mod Reconciler
pub mod Labels
pub mod Resolve
pub mod Networking
pub mod Gateways
pub mod Storage
pub mod Databases
pub mod Fake
pub mod Tests
pub mod Balancers
