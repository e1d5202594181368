-- ===== src/Examples/Instances.antt =====
-- The instance controller and the lookup of a connection at single points, and both controllers
-- over the provider cloud.
use provider_operator_exampl.Base.{
  has_suffix, String-dec, err, [], ◌↔◌, Option, some, ok, inr, ◌∷◌, M, ◌≢◌, List, ◌≡◌, refl, world,
  ne_of_test,
}
use provider_operator_exampl.Host.{Reply, done, failed}
use provider_operator_exampl.Host.Memory.{
  keep_instance, memory, memory-SetsConditions, Store, MemoryError, clash, text,
}
use provider_operator_exampl.Host.Memory.Served.{memory_server}
use provider_operator_exampl.Inventory
use provider_operator_exampl.Connection
use provider_operator_exampl.Instance
use provider_operator_exampl.Instance.Status.{Written, instance_update_status-Written}
use provider_operator_exampl.Instance.Identity.{
  identified_creates_none, unidentified_ready, no_id_condition,
}
use provider_operator_exampl.Connection.Lookup.{get_cluster_instance_iff, IsSynced, IsFirst}
use provider_operator_exampl.System.Mirror.{inventory_mirrors_cloud, IsMirrored}
use provider_operator_exampl.System.Provisioning.{instance_provisioned}
use provider_operator_exampl.System.Orphans.{Stuck, orphan_fails}
use provider_operator_exampl.FakeService.{
  send, get_cluster_parameter, create_cluster, discover_list, discover_clusters,
  create_cloud_service, fake_service,
}
use provider_operator_exampl.FakeClusters.{
  accepted, new_cluster, judge, cluster_id, find_cluster, cluster3, new_fake_clusters,
}
use provider_operator_exampl.FakeClusters.Steps.{here}
use provider_operator_exampl.FakeService.Extend.{lift, with_clusters}
use provider_operator_exampl.Examples.Objects.{
  open_store, api_secret, host, service, key, start, store, instance_named, inventory,
  listed_service,
}
use provider_operator_exampl.Api.{
  provisioning_name, ParameterType-discrete, ready, DatabaseService, condition_false,
  ProviderInstance,
}
use provider_operator_exampl.Service.{Cluster}
use provider_operator_exampl.Api.Reasons.{backend_error}
use provider_operator_exampl.Instance.{instance_condition}
use provider_operator_exampl.Host.Server.{Shows, key_of}
use provider_operator_exampl.Service.Info.{populate_instance_info}
use provider_operator_exampl.FakeService.Creation.{request_of}

abbrev orders : ProviderInstance
orders = instance_named "orders"

get_cluster_instance_iff_example :
    (Connection.get_cluster_instance memory inventory "a-cluster-instance-1-id"
      ≡ inr listed_service)
    ↔ (IsSynced inventory.status.conditions
        × IsFirst "a-cluster-instance-1-id" inventory.status.database_services listed_service)
get_cluster_instance_iff_example =
    get_cluster_instance_iff memory inventory "a-cluster-instance-1-id" listed_service

abbrev status_written : Store
status_written =
    world (Instance.update_status memory orders condition_false backend_error "down" (store orders))

abbrev reported_orders : ProviderInstance
reported_orders =
    Instance.with_conditions orders (instance_condition condition_false backend_error "down" ∷ [])

status_written_ok :
    Instance.update_status memory orders condition_false backend_error "down" (store orders)
    ≡ ok reported_orders status_written
unfolding Instance.update_status
status_written_ok = refl

instance_update_status-Written_example :
    Written memory memory_server memory-SetsConditions orders condition_false backend_error "down"
      (store orders)
      status_written
instance_update_status-Written_example =
    instance_update_status-Written memory memory_server memory-SetsConditions orders reported_orders
      condition_false backend_error "down" (store orders) status_written status_written_ok

abbrev identified : ProviderInstance
identified = record orders { status = record orders.status { instance_id = cluster3.id } }

abbrev refuse_cluster : Unit {0} → ProviderInstance → M host.World host.Err (Option Cluster)
refuse_cluster _ _ w = err clash w

identified_creates_none_example :
    Instance.reconcile host
      (record service { create_cluster = refuse_cluster })
      (key "instance")
      (store identified, new_fake_clusters)
    ≡ Instance.reconcile host service (key "instance") (store identified, new_fake_clusters)
unfolding lift String-dec
identified_creates_none_example =
    identified_creates_none host service refuse_cluster (key "instance") identified
      (store identified, new_fake_clusters) (store identified, new_fake_clusters) refl
      (ne_of_test cluster3.id "" refl)

abbrev nameless : Cluster
nameless = record cluster3 { id = "" }

abbrev blamed : ProviderInstance
blamed = Instance.with_conditions orders (no_id_condition memory ∷ [])

abbrev blamed_store : Store
blamed_store = keep_instance blamed (store orders)

abbrev ready_store : Store
ready_store = keep_instance (Instance.with_phase blamed ready) blamed_store

unidentified_ready_example :
    (object : ProviderInstance) × (Instance.record_cluster memory orders
        (some nameless)
        (store orders)
      ≡ ok done ready_store)
    × (memory_server.instance_at ready_store (key_of orders.metadata) ≡ some object)
    × (object.status.phase ≡ ready)
    × (object.status.instance_id ≡ "")
    × Shows object.status.conditions (no_id_condition memory)
unidentified_ready_example =
    unidentified_ready memory memory_server memory-SetsConditions orders blamed
      (Instance.with_phase blamed ready) nameless (store orders) blamed_store ready_store refl refl
      refl

inventory_mirrored :
    Inventory.reconcile host service (key "inventory") start
    ≡ ok done (world (Inventory.reconcile host service (key "inventory") start))
unfolding Inventory.reconcile lift String-dec create_cloud_service discover_clusters discover_list
    new_fake_clusters populate_instance_info Inventory.update_inventory_status
inventory_mirrored = refl

inventory_mirrors_cloud_example :
    (services : List DatabaseService) × (w : host.World) × IsMirrored memory memory_server
      memory-SetsConditions inventory new_fake_clusters w
      (world (Inventory.reconcile host service (key "inventory") start))
      services
unfolding String-dec
inventory_mirrors_cloud_example =
    inventory_mirrors_cloud memory memory_server memory-SetsConditions (key "inventory") inventory
      (store orders) (store orders) new_fake_clusters
      (world (Inventory.reconcile host service (key "inventory") start)) here refl
      inventory_mirrored

abbrev orphan : ProviderInstance
orphan = instance_named "a-provider-test-instance-name"

abbrev already_exists_reply : Reply MemoryError
already_exists_reply = failed (text "{\"code\": 6, \"message\": \"code = AlreadyExists\"}")

orphan_refused :
    Instance.reconcile
      (with_clusters memory)
      (fake_service memory)
      (key "instance")
      (store orphan, new_fake_clusters)
    ≡ ok already_exists_reply (
        world (
          Instance.reconcile
            (with_clusters memory)
            (fake_service memory)
            (key "instance")
            (store orphan, new_fake_clusters)))
unfolding Instance.reconcile lift String-dec create_cloud_service create_cluster
    ParameterType-discrete judge has_suffix find_cluster new_fake_clusters Instance.abandon
orphan_refused = refl

orphan_listed :
    find_cluster (cluster_id (request_of orphan)) new_fake_clusters.clusters ≡ some cluster3
unfolding find_cluster new_fake_clusters String-dec get_cluster_parameter ParameterType-discrete
orphan_listed = refl

abbrev orphan_end : host.World
orphan_end =
    world (Instance.reconcile host service (key "instance") (store orphan, new_fake_clusters))

orphan_fails_example :
    Stuck memory memory_server memory-SetsConditions orphan already_exists_reply orphan_end
    × (orphan_end.1 ≡ new_fake_clusters)
unfolding String-dec
orphan_fails_example =
    orphan_fails memory memory_server memory-SetsConditions (key "instance") orphan inventory
      (store orphan) (store orphan) (store orphan) new_fake_clusters cluster3 already_exists_reply
      (world (
        Instance.reconcile (with_clusters memory) (fake_service memory) (key "instance")
          (store orphan, new_fake_clusters)))
      refl refl refl orphan_listed orphan_refused

abbrev orders_cluster : Cluster
orders_cluster = new_cluster (request_of orders)

orders_wanted : judge (request_of orders) new_fake_clusters.clusters ≡ accepted orders_cluster
unfolding judge has_suffix get_cluster_parameter ParameterType-discrete String-dec find_cluster
    new_fake_clusters
orders_wanted = refl

orders_named : get_cluster_parameter orders provisioning_name ≢ ""
unfolding get_cluster_parameter ParameterType-discrete
orders_named = ne_of_test "orders" "" refl

instance_provisioned_example :
    (object : ProviderInstance) × (w : Store) × (Instance.reconcile
        (with_clusters memory)
        (fake_service memory)
        (key "instance")
        ((open_store orders), new_fake_clusters)
      ≡ ok done (w, send orders_cluster new_fake_clusters))
    × (memory_server.instance_at w (key_of orders.metadata) ≡ some object)
    × (object.status.instance_id ≡ orders_cluster.id)
    × (object.status.phase ≡ ready)
unfolding String-dec
instance_provisioned_example =
    instance_provisioned memory memory_server (key "instance") orders inventory api_secret
      orders_cluster (open_store orders) (open_store orders) (open_store orders) (open_store orders)
      new_fake_clusters refl refl refl (λ x. (x, keep_instance x (open_store orders), refl)) refl
      orders_named orders_wanted
