-- ===== src/Registration/Types.antt =====
-- The registration types of dbaas-operator, with the fields that the code sets.
use provider_operator_exampl.Base.{Bool, String, List}
use provider_operator_exampl.Api.{ParameterType}

-- dbaasv1beta1.Option
pub record Choice : Type 0 where
  pub value : String
  pub display_value : String

pub record FieldDependency : Type 0 where
  pub field : ParameterType
  pub value : String

-- dbaasv1beta1.ConditionalProvisioningParameterData
pub record ConditionalData : Type 0 where
  pub dependencies : List FieldDependency
  pub options : List Choice
  pub default_value : String

pub record ProvisioningParameter : Type 0 where
  pub display_name : String
  pub help_text : String
  pub conditional_data : List ConditionalData

pub record CredentialField : Type 0 where
  pub key : String
  pub display_name : String
  pub type : String
  pub required : Bool
  pub help_text : String

pub record DatabaseProviderInfo : Type 0 where
  pub name : String
  pub display_name : String
  pub display_description : String
  pub icon_data : String
  pub icon_media_type : String

pub record ProviderSpec : Type 0 where
  pub group_version : String
  pub provider : DatabaseProviderInfo
  pub inventory_kind : String
  pub connection_kind : String
  pub instance_kind : String
  pub credential_fields : List CredentialField
  pub allows_free_trial : Bool
  pub external_provision_url : String
  pub external_provision_description : String
  pub provisioning_parameters : List (ParameterType × ProvisioningParameter)

-- The constants ProvisioningPlanFreeTrial, ProvisioningPlanServerless and ProvisioningPlanDedicated
-- of dbaas-operator.
pub record Plans : Type 0 where
  pub free_trial : String
  pub serverless : String
  pub dedicated : String
