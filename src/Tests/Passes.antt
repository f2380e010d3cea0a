-- ===== src/Tests/Passes.antt =====
-- Passes of the reconcile loop over the network of the fixtures.
use upcloud_operator.Prelude.{◌≡◌, refl, none, some, []}
use upcloud_operator.Errors.{Err, problem, wrap, pending_because}
use upcloud_operator.Kube.{policy_orphan}
use upcloud_operator.Kube.Model.{library, library-IsLibrary}
use upcloud_operator.Effects.{Call, World}
use upcloud_operator.Reconciler.{reconcile, reconcile_normal}
use upcloud_operator.Reconciler.Options.{pos, Intervals, defaults}
use upcloud_operator.Reconciler.Verdict.{HasVerdict, reconcile_normal-verdict}
use upcloud_operator.Reconciler.Requeue.{
  AllPositive, NoneNegative, defaults-AllPositive, Returns, reconcile-Returns,
}
use upcloud_operator.Reconciler.Reports.{Reports, reconcile_normal-Reports}
use upcloud_operator.Reconciler.Finalizer.{
  EndsReleased, StaysDeleting, IsDeleting, reconcile-cloud_unguarded, reconcile-orphan,
  reconcile-delete_failed, reconcile-delete_done,
}
use upcloud_operator.Networking.Types.{Network, network_object, network_object-IsObject}
use upcloud_operator.Tests.Fixtures.{finalizer, network, client, adapter, world, failing, Cluster}
use upcloud_operator.Fake.Network.{Account}

-- A reconciler without configured intervals.
abbrev bare : Intervals
bare = record { pending_requeue = pos 0; dependency_requeue = pos 0; steady_requeue = pos 0 }

bare-NoneNegative : NoneNegative bare
bare-NoneNegative = record { pending = refl; dependency = refl; steady = refl }

defaults-AllPositive_example : AllPositive (defaults bare)
defaults-AllPositive_example = defaults-AllPositive bare bare-NoneNegative

reconcile_normal-verdict_example :
    HasVerdict library library-IsLibrary network_object network_object-IsObject client bare adapter
      (network none)
      (adapter.observe (record { obj = network none; world = world none }))
      (reconcile_normal library network_object client bare adapter (network none) (world none))
reconcile_normal-verdict_example =
    reconcile_normal-verdict library library-IsLibrary network_object network_object-IsObject client
      bare adapter (network none) (world none)

reconcile-Returns_example :
    Returns
      (reconcile library network_object client bare adapter finalizer "default" "backend"
        (world none)).0
unfolding library
reconcile-Returns_example =
    reconcile-Returns library network_object client bare adapter finalizer "default" "backend"
      (world none) (network none) bare-NoneNegative refl refl refl

abbrev broken : Err
broken = problem 500 "server error" "server error"

reconcile_normal-Reports_example :
    Reports
      (wrap "modify network" broken)
      (reconcile_normal library network_object client bare adapter
        (network none)
        (failing broken (world none))).0.error
unfolding upcloud_operator.Errors.errors_is upcloud_operator.Networking.NetworkAdapter.observe
    upcloud_operator.Networking.NetworkAdapter.desired_router_uuid upcloud_operator.Resolve.ready
    upcloud_operator.Reconciler.Conditions.is_ready library
    upcloud_operator.Networking.NetworkAdapter.lookup
    upcloud_operator.Fake.Network.get_network_details upcloud_operator.Fake.Network.create_router
    upcloud_operator.Fake.Network.create_network
    upcloud_operator.Networking.NetworkAdapter.same_settings
    upcloud_operator.Networking.Types.external_name
    upcloud_operator.Networking.NetworkAdapter.update upcloud_operator.Fake.Network.modify_network
reconcile_normal-Reports_example =
    reconcile_normal-Reports library network_object client bare adapter (network none)
      (failing broken (world none)) (wrap "modify network" broken) refl refl

-- The network before the operator has added its finalizer.
abbrev unguarded : Network
unguarded = record (network none) { meta = record ((network none).meta) { finalizers = [] } }

abbrev unguarded_world : World Account Cluster
unguarded_world = record (world none) { cluster = some unguarded }

reconcile-cloud_unguarded_example :
    (reconcile library network_object client bare adapter finalizer "default" "backend"
      unguarded_world).1.cloud
    ≡ unguarded_world.cloud
unfolding library
reconcile-cloud_unguarded_example =
    reconcile-cloud_unguarded library network_object client bare adapter finalizer "default"
      "backend" unguarded_world unguarded refl refl

-- The network under deletion.
abbrev gone : Network
gone = network (some 7)

abbrev orphan : Network
orphan = record gone { spec = record (gone.spec) { deletion_policy = policy_orphan } }

abbrev orphan_world : World Account Cluster
orphan_world = record (world none) { cluster = some orphan }

orphan-IsDeleting :
    IsDeleting library library-IsLibrary network_object network_object-IsObject client finalizer
      "default" "backend" orphan_world orphan
unfolding library
orphan-IsDeleting = record { found = refl; deleted = refl; held = refl }

reconcile-orphan_example :
    EndsReleased library library-IsLibrary network_object network_object-IsObject client finalizer
      (record { obj = orphan; world = orphan_world })
      (reconcile library network_object client bare adapter finalizer "default" "backend"
        orphan_world)
reconcile-orphan_example =
    reconcile-orphan library library-IsLibrary network_object network_object-IsObject client bare
      adapter finalizer "default" "backend" orphan_world orphan orphan-IsDeleting refl

abbrev busy : Err
busy = problem 409 "network is in use" "network is in use"

-- The account answers the deletion with a conflict.
abbrev busy_world : World Account Cluster
busy_world = failing busy (world (some 7))

busy-IsDeleting :
    IsDeleting library library-IsLibrary network_object network_object-IsObject client finalizer
      "default" "backend" busy_world gone
unfolding library
busy-IsDeleting = record { found = refl; deleted = refl; held = refl }

abbrev after_busy : Call Network (World Account Cluster)
after_busy = (adapter.delete (record { obj = gone; world = busy_world })).1

reconcile-delete_failed_example :
    StaysDeleting library library-IsLibrary network_object network_object-IsObject client
      (defaults bare)
      gone
      (pending_because busy)
      after_busy
      (reconcile library network_object client bare adapter finalizer "default" "backend"
        busy_world)
unfolding upcloud_operator.Networking.NetworkAdapter.delete
    upcloud_operator.Fake.Network.delete_network upcloud_operator.Errors.is_not_found
    upcloud_operator.Errors.is_conflict
reconcile-delete_failed_example =
    reconcile-delete_failed library library-IsLibrary network_object network_object-IsObject client
      bare adapter finalizer "default" "backend" busy_world gone busy-IsDeleting after_busy refl
      refl

gone-IsDeleting :
    IsDeleting library library-IsLibrary network_object network_object-IsObject client finalizer
      "default" "backend"
      (world (some 7))
      gone
unfolding library
gone-IsDeleting = record { found = refl; deleted = refl; held = refl }

abbrev after_gone : Call Network (World Account Cluster)
after_gone = (adapter.delete (record { obj = gone; world = world (some 7) })).1

reconcile-delete_done_example :
    EndsReleased library library-IsLibrary network_object network_object-IsObject client finalizer
      after_gone
      (reconcile library network_object client bare adapter finalizer "default" "backend"
        (world (some 7)))
unfolding upcloud_operator.Networking.NetworkAdapter.delete
    upcloud_operator.Fake.Network.delete_network upcloud_operator.Fake.Network.create_router
    upcloud_operator.Fake.Network.create_network
reconcile-delete_done_example =
    reconcile-delete_done library library-IsLibrary network_object network_object-IsObject client
      bare adapter finalizer "default" "backend" (world (some 7)) gone gone-IsDeleting after_gone
      refl refl
