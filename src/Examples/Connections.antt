-- ===== src/Examples/Connections.antt =====
-- A connection that is bound to a service of its inventory.
use provider_operator_exampl.Base.{inl, String-dec, refl, world, ok, ◌≡◌, []}
use provider_operator_exampl.Base.Dict.{insert}
use provider_operator_exampl.Api.{DatabaseService, ProviderConnection, Secret, ConfigMap}
use provider_operator_exampl.Host.{done}
use provider_operator_exampl.Host.Memory.{keep_connection, memory}
use provider_operator_exampl.Connection.{
  mutate_config_map, mutate_secret, reconcile, create_or_update_secret, create_or_update_config_map,
}
use provider_operator_exampl.Connection.Build.{
  build_labels, secret_name, config_map_name, secret_contents, config_map_contents,
}
use provider_operator_exampl.Connection.Binding.{reconcile-Bound}
use provider_operator_exampl.Connection.Ends.{Bound}
use provider_operator_exampl.Connection.Lookup.{IsFirst}
use provider_operator_exampl.Examples.Objects.{
  host, server, sets_conditions, service, key, start, connection, inventory, listed_service,
}
use provider_operator_exampl.FakeService.Extend.{lift}
use provider_operator_exampl.FakeService.{create_cloud_service}

abbrev pub made_secret : Secret
made_secret = record {
  kind = "Secret";
  metadata = record {
    name = secret_name connection;
    namespace = "dbaas";
    labels = insert "db-operator/type" "credentials" (build_labels connection);
    owner_references = [];
    resource_version = "";
  };
  type = "Opaque";
  contents = secret_contents;
}

abbrev pub made_config_map : DatabaseService → ConfigMap
made_config_map instance = record {
  kind = "ConfigMap";
  metadata = record {
    name = config_map_name connection;
    namespace = "dbaas";
    labels = build_labels connection;
    owner_references = [];
    resource_version = "";
  };
  contents = config_map_contents instance;
}

abbrev with_secret : host.World
with_secret = world (create_or_update_secret host connection start)

abbrev with_both : host.World
with_both = world (create_or_update_config_map host connection listed_service with_secret)

secret_made : create_or_update_secret host connection start ≡ ok made_secret with_secret
unfolding create_or_update_secret lift mutate_secret
secret_made = refl

config_map_made :
    create_or_update_config_map host connection listed_service with_secret
    ≡ ok (made_config_map listed_service) with_both
unfolding create_or_update_config_map lift mutate_config_map create_or_update_secret mutate_secret
config_map_made = refl

listed_service-IsFirst :
    IsFirst "a-cluster-instance-1-id" inventory.status.database_services listed_service
listed_service-IsFirst = record {
  before = [];
  after = [];
  split = refl;
  matches = refl;
  earlier = tt;
}

cloud_made : create_cloud_service memory (key "credentials") start ≡ ok tt start
unfolding create_cloud_service lift
cloud_made = refl

reads_connection : host.get_connection (key "connection") start ≡ ok connection start
unfolding lift String-dec
reads_connection = refl

reads_inventory : host.get_inventory (key "inventory") start ≡ ok inventory start
unfolding lift String-dec
reads_inventory = refl

updates_status :
    (x : ProviderConnection)
    → (y : ProviderConnection) × (w : host.World) × (host.update_connection_status x with_both
        ≡ ok y w)
unfolding lift create_or_update_config_map mutate_config_map create_or_update_secret mutate_secret
updates_status x = (x, (keep_connection x with_both.0, with_both.1), refl)

reconcile-Bound_example :
    (w : host.World) × (reconcile host service (key "connection") start ≡ ok done w)
    × Bound host server sets_conditions service connection listed_service w
reconcile-Bound_example =
    reconcile-Bound host server sets_conditions service (key "connection") connection inventory
      listed_service tt made_secret (made_config_map listed_service) start start start start
      with_secret with_both reads_connection reads_inventory (inl (refl, refl))
      listed_service-IsFirst cloud_made secret_made config_map_made updates_status
