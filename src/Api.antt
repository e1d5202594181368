-- ===== src/Api.antt =====
-- The custom resources of apis/dbaas/v1beta1, with the fields of the embedded metav1 and
-- dbaas-operator types that the code reads or writes (config/crd/bases lists them), and the
-- constants of controllers/dbaas/common.go.
pub mod Reasons
use provider_operator_exampl.Base.{String, Bool, Option, List}
use provider_operator_exampl.Base.Dict.{Dict}

-- client.ObjectKey and types.NamespacedName
pub record ObjectKey : Type 0 where
  pub namespace : String
  pub name : String

-- metav1.OwnerReference
pub record OwnerReference : Type 0 where
  pub api_version : String
  pub kind : String
  pub uid : String
  pub name : String
  pub controller : Option Bool
  pub block_owner_deletion : Option Bool

-- metav1.ObjectMeta
pub record ObjectMeta : Type 0 where
  pub name : String
  pub namespace : String
  pub labels : Dict String
  pub owner_references : List OwnerReference
  pub resource_version : String

pub data ConditionStatus : Type 0 where
  condition_true condition_false condition_unknown : ConditionStatus

pub ConditionStatus-discrete : Discrete ConditionStatus
ConditionStatus-discrete = hlevel

-- metav1.Condition; `last_transition_time` is left blank by the code.
pub record Condition : Type 0 where
  pub type : String
  pub status : ConditionStatus
  pub reason : String
  pub message : String
  pub last_transition_time : String

-- dbaasv1beta1.DatabaseService
pub record DatabaseService : Type 0 where
  pub service_id : String
  pub service_name : String
  pub service_info : Dict String

pub record InventoryStatus : Type 0 where
  pub conditions : List Condition
  pub database_services : List DatabaseService

pub record ProviderInventory : Type 0 where
  pub kind : String
  pub metadata : ObjectMeta
  pub credentials_ref : String
  pub status : InventoryStatus

pub record ConnectionSpec : Type 0 where
  pub inventory_ref : ObjectKey
  pub database_service_id : String

pub record ConnectionStatus : Type 0 where
  pub conditions : List Condition
  pub credentials_ref : Option String
  pub connection_info_ref : Option String

pub record ProviderConnection : Type 0 where
  pub kind : String
  pub metadata : ObjectMeta
  pub spec : ConnectionSpec
  pub status : ConnectionStatus

-- dbaasv1beta1.DBaasInstancePhase
pub data InstancePhase : Type 0 where
  unknown pending creating updating deleting deleted ready error failed : InstancePhase

-- dbaasv1beta1.ProvisioningParameterType, a string type with these constants.
pub data ParameterType : Type 0 where
  provisioning_name provisioning_plan provisioning_cloud_provider : ParameterType
  provisioning_regions provisioning_nodes provisioning_machine_type : ParameterType
  provisioning_storage_gib provisioning_spend_limit provisioning_plan_label : ParameterType
  provisioning_serverless_location_label provisioning_dedicated_location_label : ParameterType
  provisioning_hardware_label provisioning_spend_limit_label : ParameterType

unfoldable pub ParameterType-discrete : Discrete ParameterType
ParameterType-discrete = hlevel

pub record InstanceSpec : Type 0 where
  pub inventory_ref : ObjectKey
  pub provisioning_parameters : List (ParameterType × String)

pub record InstanceStatus : Type 0 where
  pub conditions : List Condition
  pub instance_id : String
  pub instance_info : Dict String
  pub phase : InstancePhase

pub record ProviderInstance : Type 0 where
  pub kind : String
  pub metadata : ObjectMeta
  pub spec : InstanceSpec
  pub status : InstanceStatus

-- corev1.Secret and corev1.ConfigMap
pub record Secret : Type 0 where
  pub kind : String
  pub metadata : ObjectMeta
  pub type : String
  pub contents : Dict String

pub record ConfigMap : Type 0 where
  pub kind : String
  pub metadata : ObjectMeta
  pub contents : Dict String

-- Of a template, and used by nothing.
pub record ProviderInstanceSpec : Type 0 where
  pub foo : String

pub data ProviderInstanceStatus : Type 0 where
  provider_instance_status : ProviderInstanceStatus
