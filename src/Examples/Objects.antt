-- ===== src/Examples/Objects.antt =====
-- An inventory, a connection and an instance, and the worlds in which they are stored.
use provider_operator_exampl.Host.{Host}
use provider_operator_exampl.Host.Memory.{put, memory, Store, memory-SetsConditions}
use provider_operator_exampl.Host.Memory.Served.{memory_server}
use provider_operator_exampl.FakeClusters.{new_fake_clusters}
use provider_operator_exampl.FakeService.Extend.{with_clusters}
use provider_operator_exampl.Base.{false, none, [], ◌∷◌, String}
use provider_operator_exampl.Api.{
  unknown, ObjectMeta, ObjectKey, provisioning_name, condition_true, ProviderInstance,
  ProviderInventory, ProviderConnection, Condition, DatabaseService, Secret,
}
use provider_operator_exampl.Service.{ProviderService}
use provider_operator_exampl.Host.Server.{SetsConditions, Server}
use provider_operator_exampl.FakeService.Lifted.{extend_server, extend_conditions}
use provider_operator_exampl.FakeService.{fake_service}

abbrev pub host : Host
host = with_clusters memory

abbrev pub server : Server host
server = extend_server memory memory_server

abbrev pub sets_conditions : SetsConditions host
sets_conditions = extend_conditions memory memory-SetsConditions

abbrev pub service : ProviderService host
service = fake_service memory

abbrev pub key : String → ObjectKey
key name = record { namespace = "dbaas"; name = name }

abbrev pub meta : String → ObjectMeta
meta name = record {
  name = name;
  namespace = "dbaas";
  labels = [];
  owner_references = [];
  resource_version = "1";
}

abbrev pub synced : Condition
synced = record {
  type = "SpecSynced";
  status = condition_true;
  reason = "SyncOK";
  message = "SyncOK";
  last_transition_time = "";
}

abbrev pub listed_service : DatabaseService
listed_service = record {
  service_id = "a-cluster-instance-1-id";
  service_name = "a-cluster-test-1";
  service_info = [];
}

abbrev pub inventory : ProviderInventory
inventory = record {
  kind = "ProviderInventory";
  metadata = meta "inventory";
  credentials_ref = "credentials";
  status = record { conditions = synced ∷ []; database_services = listed_service ∷ [] };
}

abbrev pub connection : ProviderConnection
connection = record {
  kind = "ProviderConnection";
  metadata = meta "connection";
  spec = record {
    inventory_ref = key "inventory";
    database_service_id = "a-cluster-instance-1-id";
  };
  status = record { conditions = []; credentials_ref = none; connection_info_ref = none };
}

abbrev pub instance_named : String → ProviderInstance
instance_named name = record {
  kind = "ProviderInstance";
  metadata = meta "instance";
  spec = record {
    inventory_ref = key "inventory";
    provisioning_parameters = (provisioning_name, name) ∷ [];
  };
  status = record { conditions = []; instance_id = ""; instance_info = []; phase = unknown };
}

-- A store with one object of each kind.
abbrev pub store : ProviderInstance → Store
store instance = record {
  inventories = put (key "inventory") inventory (λ _. none);
  connections = put (key "connection") connection (λ _. none);
  instances = put (key "instance") instance (λ _. none);
  secrets = λ _. none;
  config_maps = λ _. none;
  busy = false;
  registered = false;
}

abbrev pub start : host.World
start = (store (instance_named "orders"), new_fake_clusters)

abbrev pub api_secret : Secret
api_secret = record {
  kind = "Secret";
  metadata = meta "credentials";
  type = "Opaque";
  contents = ("CredentialField1", "one") ∷ ("CredentialField2", "two") ∷ [];
}

-- The store with the secret of the inventory.
abbrev pub open_store : ProviderInstance → Store
open_store instance = record (store instance) {
  secrets = put (key "credentials") api_secret (λ _. none);
}
