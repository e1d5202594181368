-- ===== src/Examples/Reconcilers.antt =====
-- The reconcilers, each run on stored objects.
use provider_operator_exampl.Base.{has_suffix, String-dec, world, ok, ◌≡◌, refl, err}
use provider_operator_exampl.Host.{done, failed}
use provider_operator_exampl.Service.{ProviderService}
use provider_operator_exampl.Inventory
use provider_operator_exampl.Connection
use provider_operator_exampl.Instance
use provider_operator_exampl.Inventory.Ends
use provider_operator_exampl.Inventory.Laws.{
  inventory_reconcile-Finish, inventory_reconcile-Failure,
}
use provider_operator_exampl.Connection.Laws.{connection_reconcile-Ends}
use provider_operator_exampl.Instance.Laws.{instance_reconcile-Ends}
use provider_operator_exampl.Examples.Objects.{host, server, sets_conditions, service, key, start}
use provider_operator_exampl.FakeService.Extend.{lift}
use provider_operator_exampl.Host.Memory.{text}
use provider_operator_exampl.FakeService.{
  create_cluster, discover_list, discover_clusters, create_cloud_service,
}
use provider_operator_exampl.FakeClusters.{find_cluster, judge, new_fake_clusters}
use provider_operator_exampl.Api.{ParameterType-discrete}
use provider_operator_exampl.Service.Info.{populate_instance_info}

abbrev locked_service : ProviderService host
locked_service = record service { create_cloud_service = λ _ w. err (text "no credentials") w }

inventory_done :
    Inventory.reconcile host service (key "inventory") start
    ≡ ok done (world (Inventory.reconcile host service (key "inventory") start))
unfolding Inventory.reconcile Inventory.update_inventory_status lift String-dec create_cloud_service
    discover_clusters discover_list new_fake_clusters populate_instance_info
inventory_done = refl

inventory_reconcile-Finish_example :
    Inventory.Ends.Finish host server sets_conditions service
      (key "inventory")
      start
      (world (Inventory.reconcile host service (key "inventory") start))
inventory_reconcile-Finish_example =
    inventory_reconcile-Finish host server sets_conditions service (key "inventory") start
      (world (Inventory.reconcile host service (key "inventory") start)) inventory_done

inventory_failed :
    Inventory.reconcile host locked_service (key "inventory") start
    ≡ ok
        (failed (text "no credentials"))
        (world (Inventory.reconcile host locked_service (key "inventory") start))
unfolding Inventory.reconcile Inventory.update_inventory_status lift String-dec
inventory_failed = refl

inventory_reconcile-Failure_example :
    Inventory.Ends.Failure host server sets_conditions locked_service
      (key "inventory")
      start
      (text "no credentials")
      (world (Inventory.reconcile host locked_service (key "inventory") start))
inventory_reconcile-Failure_example =
    inventory_reconcile-Failure host server sets_conditions locked_service (key "inventory")
      (text "no credentials") start
      (world (Inventory.reconcile host locked_service (key "inventory") start)) inventory_failed

connection_done :
    Connection.reconcile host service (key "connection") start
    ≡ ok done (world (Connection.reconcile host service (key "connection") start))
unfolding Connection.reconcile lift String-dec Connection.get_cluster_instance
    Connection.Build.find_synced Connection.Build.find_service create_cloud_service
    Connection.create_or_update_secret Connection.mutate_secret
    Connection.create_or_update_config_map Connection.mutate_config_map Connection.bind_connection
connection_done = refl

connection_reconcile-Ends_example :
    Connection.Ends.Ends host server sets_conditions service
      (key "connection")
      start
      done
      (world (Connection.reconcile host service (key "connection") start))
connection_reconcile-Ends_example =
    connection_reconcile-Ends host server sets_conditions service (key "connection") start
      (world (Connection.reconcile host service (key "connection") start)) done connection_done

instance_done :
    Instance.reconcile host service (key "instance") start
    ≡ ok done (world (Instance.reconcile host service (key "instance") start))
unfolding Instance.reconcile lift String-dec create_cloud_service create_cluster
    ParameterType-discrete judge has_suffix find_cluster new_fake_clusters Instance.record_cluster
    populate_instance_info
instance_done = refl

instance_reconcile-Ends_example :
    Instance.Laws.Ends host server sets_conditions service
      (key "instance")
      start
      done
      (world (Instance.reconcile host service (key "instance") start))
instance_reconcile-Ends_example =
    instance_reconcile-Ends host server sets_conditions service (key "instance") start
      (world (Instance.reconcile host service (key "instance") start)) done instance_done
