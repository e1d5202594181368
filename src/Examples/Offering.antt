-- ===== src/Examples/Offering.antt =====
-- A cluster of the cloud that an inventory is given and a connection is then bound to.
use provider_operator_exampl.Api.{ProviderInventory, DatabaseService}
use provider_operator_exampl.Base.{
  String-dec, ok, err, ◌≡◌, refl, sym, ◌∙◌, arith, world, none, some, false, [],
}
use provider_operator_exampl.Base.Dict.{lookup}
use provider_operator_exampl.Examples.Connections.{made_secret, made_config_map}
use provider_operator_exampl.Connection.{
  mutate_config_map, mutate_secret, create_or_update_secret, create_or_update_config_map,
}
use provider_operator_exampl.Examples.Objects.{
  host, service, key, connection, inventory, instance_named, open_store, api_secret,
}
use provider_operator_exampl.FakeClusters.{find_cluster, new_fake_clusters, cluster1}
use provider_operator_exampl.FakeClusters.Steps.{here}
use provider_operator_exampl.FakeService.{create_cloud_service, discover_clusters, discover_list}
use provider_operator_exampl.FakeService.Extend.{lift}
use provider_operator_exampl.Host.{done}
use provider_operator_exampl.Host.Memory.{memory, memory-SetsConditions, Store, keep_connection}
use provider_operator_exampl.Host.Memory.Served.{memory_server, memory_inventory_at}
use provider_operator_exampl.Host.Server.{key_of}
use provider_operator_exampl.Inventory
use provider_operator_exampl.Inventory.{secret_selector}
use provider_operator_exampl.Service.Info.{populate_instance_info}
use provider_operator_exampl.System.Offering.{Provides, Binds, cluster_bound}

-- The inventory before it is reconciled lists nothing.
abbrev bare : ProviderInventory
bare = record inventory { status = record { conditions = []; database_services = [] } }

abbrev before : Store
before = record (open_store (instance_named "orders")) { inventories = λ _. some bare }

abbrev after : host.World
after = world (Inventory.reconcile host service (key "inventory") (before, new_fake_clusters))

synced_ok :
    Inventory.reconcile host service (key "inventory") (before, new_fake_clusters) ≡ ok done after
unfolding Inventory.reconcile lift String-dec create_cloud_service discover_clusters discover_list
    new_fake_clusters populate_instance_info Inventory.update_inventory_status lookup
synced_ok = refl

-- What the connection controller reads later.
abbrev read : ProviderInventory
read = elim (after.0.inventories (key "inventory")) [ none ↦ bare | some x ↦ x ]

not_refused :
    (x : ProviderInventory) (u : host.World) (e : host.Err)
    → host.update_inventory_status x u ≡ err e after
    → host.is_conflict e ≡ false
unfolding lift Inventory.reconcile String-dec create_cloud_service discover_clusters discover_list
    new_fake_clusters populate_instance_info Inventory.update_inventory_status lookup
not_refused x u e h = absurd (ground arith)

cluster1_listed :
    find_cluster connection.spec.database_service_id new_fake_clusters.clusters ≡ some cluster1
unfolding find_cluster new_fake_clusters String-dec
cluster1_listed = refl

read_stored :
    (x : ProviderInventory)
    → memory_server.inventory_at after.0 (key_of bare.metadata) ≡ some x
    → read.status ≡ x.status
unfolding lift Inventory.reconcile String-dec create_cloud_service discover_clusters discover_list
    new_fake_clusters populate_instance_info Inventory.update_inventory_status lookup
read_stored x h =
    let at = sym (memory_inventory_at after.0 (key_of bare.metadata)) ∙ h in ground arith

reads : memory.get_inventory (key "inventory") after.0 ≡ ok read after.0
unfolding lift Inventory.reconcile String-dec create_cloud_service discover_clusters discover_list
    new_fake_clusters populate_instance_info Inventory.update_inventory_status lookup
reads = refl

reads_connection : memory.get_connection (key "connection") after.0 ≡ ok connection after.0
unfolding lift Inventory.reconcile String-dec create_cloud_service discover_clusters discover_list
    new_fake_clusters populate_instance_info Inventory.update_inventory_status lookup
reads_connection = refl

abbrev with_secret : host.World
with_secret = world (create_or_update_secret host connection after)

abbrev with_both : DatabaseService → host.World
with_both s = world (create_or_update_config_map host connection s with_secret)

provided :
    Provides memory memory_server memory-SetsConditions connection
      (secret_selector read)
      after.0
      new_fake_clusters
unfolding lift Inventory.reconcile String-dec create_cloud_service discover_clusters discover_list
    new_fake_clusters populate_instance_info Inventory.update_inventory_status lookup
    create_or_update_config_map mutate_config_map create_or_update_secret mutate_secret
provided = record {
  api_key = api_secret;
  after_key = after.0;
  reads_key = refl;
  secret = made_secret;
  after_secret = with_secret;
  makes_secret = refl;
  makes_config_map = λ s. (
    made_config_map s,
    with_both s,
    refl,
    λ x. (x, (keep_connection x (with_both s).0, (with_both s).1), refl),
  );
}

cluster_bound_example :
    Binds memory memory_server memory-SetsConditions connection read
      (key "connection")
      (after.0, new_fake_clusters)
      cluster1
cluster_bound_example =
    cluster_bound memory memory_server memory-SetsConditions (key "inventory") (key "connection")
      bare read connection cluster1 before before after.0 after.0 after.0 new_fake_clusters
      new_fake_clusters after here refl not_refused synced_ok cluster1_listed reads_connection reads
      read_stored provided
