-- ===== src/Registration/Spec.antt =====
-- buildProviderSpec of controllers/dbaas/dbaasprovider_reconciler.go: what the console offers for a
-- database instance of this provider.
pub mod Rules
pub mod Choices
use provider_operator_exampl.Registration.Types.{
  ConditionalData, CredentialField, ProviderSpec, ProvisioningParameter, Plans,
}
use provider_operator_exampl.Registration.Data.{
  spend_limit_data, storage_data, machine_type_data, nodes_data, regions_data, cloud_provider_data,
  plan_data,
}
use provider_operator_exampl.Base.{◌∷◌, true, List, [], String}
use provider_operator_exampl.Api.{
  provisioning_spend_limit_label, provisioning_hardware_label,
  provisioning_dedicated_location_label, provisioning_serverless_location_label,
  provisioning_plan_label, provisioning_spend_limit, provisioning_storage_gib,
  provisioning_machine_type, provisioning_nodes, provisioning_regions, provisioning_cloud_provider,
  provisioning_plan, provisioning_name, ParameterType,
}

module _ (plans : Plans) where
  abbrev conditional : String → List ConditionalData → ProvisioningParameter
  conditional name conditions = record {
    display_name = name;
    help_text = "";
    conditional_data = conditions;
  }

  abbrev labelled : String → String → ProvisioningParameter
  labelled name help = record { display_name = name; help_text = help; conditional_data = [] }

  unfoldable pub provisioning_parameters : List (ParameterType × ProvisioningParameter)
  unfolding plan_data cloud_provider_data regions_data nodes_data machine_type_data storage_data
      spend_limit_data
  provisioning_parameters =
      (provisioning_name, labelled "Cluster name" "")
      ∷ (provisioning_plan, conditional "Hosting plan" (plan_data plans))
      ∷ (provisioning_cloud_provider, conditional "Cloud Provider" (cloud_provider_data plans))
      ∷ (provisioning_regions, conditional "Regions" (regions_data plans))
      ∷ (provisioning_nodes, conditional "Nodes" (nodes_data plans))
      ∷ (provisioning_machine_type, conditional "Compute" (machine_type_data plans))
      ∷ (provisioning_storage_gib, conditional "Storage" (storage_data plans))
      ∷ (provisioning_spend_limit, conditional "Spend limit" (spend_limit_data plans))
      ∷ (provisioning_plan_label, labelled "Select a plan" "")
      ∷ (
        provisioning_serverless_location_label,
        labelled "Select regions"
            "Select the geographical region where you want the database instance to run.",
      )
      ∷ (
        provisioning_dedicated_location_label,
        labelled "Select regions & nodes"
            "Select the geographical region where you want the database instance to run, and set the number of nodes you want running in this dedicated cluster.",
      )
      ∷ (
        provisioning_hardware_label,
        labelled "Hardware per node"
            "Select the compute and storage requirements for this database instance.",
      )
      ∷ (
        provisioning_spend_limit_label,
        labelled "Spend limit" "Set a spending limit on resources for this database instance.",
      )
      ∷ []

  abbrev masked : String → String → String → CredentialField
  masked key name help = record {
    key = key;
    display_name = name;
    type = "maskedstring";
    required = true;
    help_text = help;
  }

  -- The two arguments are not used.
  unfoldable pub build_provider_spec : ProvisioningParameter → ProvisioningParameter → ProviderSpec
  unfolding provisioning_parameters
  build_provider_spec regions nodes = record {
    group_version = "dbaas.redhat.com/v1beta1";
    provider = record {
      name = "Provider Example";
      display_name = "DBaaS Provider Example ";
      display_description =
          "This is an example for providers on how to implement their operator to integrate with DBaaS.";
      icon_data = "SGVsbG8sIHdvcmxkLg==";
      icon_media_type = "image/png";
    };
    inventory_kind = "ProviderInventory";
    connection_kind = "ProviderConnection";
    instance_kind = "ProviderInstance";
    credential_fields =
        masked "CredentialField1" "Credential Field 1"
          "This is the Credential Field 1 for the example provider to show on UI"
        ∷ masked "CredentialField2" "Credential Field 2"
            "This is the Credential Field 2 for the example provider to show on UI"
        ∷ [];
    allows_free_trial = true;
    external_provision_url = "https://www.exmample.com/docs/provider/quickstart.html";
    external_provision_description =
        "Follow the guide to start a free Provider Serverless (beta) cluster";
    provisioning_parameters = provisioning_parameters;
  }
