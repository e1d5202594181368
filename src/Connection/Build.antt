-- ===== src/Connection/Build.antt =====
-- What ProviderConnectionReconciler looks up in an inventory, and the objects and conditions that it
-- builds.
use provider_operator_exampl.Base.{
  List, [], ◌∷◌, String, ◌<>◌, Bool, true, false, ◌&&◌, ◌==◌, if◌then◌else◌, Option, none, some,
}
use provider_operator_exampl.Base.Dict.{Dict}
use provider_operator_exampl.Api.{
  ObjectMeta, ConditionStatus, condition_true, Condition, DatabaseService, ProviderConnection,
  Secret, ConfigMap,
}
use provider_operator_exampl.Api.Reasons.{
  ConditionReason, reason_text, inventory_condition_type_ready, connection_condition_ready_type,
  database_type, database_provider, database_host, database_port, database_name, database_ssl_mode,
}

abbrev pub is_true : ConditionStatus → Bool
is_true condition_true = true
is_true _ = false

-- The first loop of getClusterInstance.
unfoldable pub find_synced : List Condition → Option Condition
find_synced [] = none
find_synced (c ∷ cs) =
    if c.type == inventory_condition_type_ready && is_true c.status then some c else find_synced cs

-- Its second loop.
unfoldable pub find_service : String → List DatabaseService → Option DatabaseService
find_service id [] = none
find_service id (s ∷ services) = if s.service_id == id then some s else find_service id services

unfoldable pub build_labels : ProviderConnection → Dict String
build_labels connection =
    ("managed-by", "dbaas-operator")
    ∷ ("owner", connection.metadata.name)
    ∷ ("owner.kind", connection.kind)
    ∷ ("owner.namespace", connection.metadata.namespace)
    ∷ []

-- setSecret
abbrev pub secret_contents : Dict String
secret_contents = ("username", "username1") ∷ ("password", "Password") ∷ []

-- setConfigMap, which ignores the database service that it is given.
unfoldable pub config_map_contents : DatabaseService → Dict String
config_map_contents instance =
    ("type", database_type)
    ∷ ("provider", database_provider)
    ∷ ("host", database_host)
    ∷ ("port", database_port)
    ∷ ("database", database_name)
    ∷ ("sslmode", database_ssl_mode)
    ∷ []

abbrev pub secret_name : ProviderConnection → String
secret_name connection = "cloud-user-credentials-" <> connection.metadata.name

abbrev pub config_map_name : ProviderConnection → String
config_map_name connection = "cloud-conn-cm-" <> connection.metadata.name

-- An object with a name and a namespace and nothing else.
abbrev named : String → String → ObjectMeta
named name namespace = record {
  name = name;
  namespace = namespace;
  labels = [];
  owner_references = [];
  resource_version = "";
}

abbrev pub new_secret : ProviderConnection → Secret
new_secret connection = record {
  kind = "";
  metadata = named (secret_name connection) connection.metadata.namespace;
  type = "";
  contents = [];
}

abbrev pub new_config_map : ProviderConnection → ConfigMap
new_config_map connection = record {
  kind = "";
  metadata = named (config_map_name connection) connection.metadata.namespace;
  contents = [];
}

-- The condition that updateStatus builds.
abbrev pub connection_condition : ConditionStatus → ConditionReason → String → Condition
connection_condition status reason message = record {
  type = connection_condition_ready_type;
  status = status;
  reason = reason_text reason;
  message = message;
  last_transition_time = "";
}

abbrev pub with_conditions : ProviderConnection → List Condition → ProviderConnection
with_conditions connection conditions = record connection {
  status = record connection.status { conditions = conditions };
}

-- `connection.Status.CredentialsRef` and `connection.Status.ConnectionInfoRef`
abbrev pub with_refs : ProviderConnection → String → String → ProviderConnection
with_refs connection secret config_map = record connection {
  status = record connection.status {
    credentials_ref = some secret;
    connection_info_ref = some config_map;
  };
}
