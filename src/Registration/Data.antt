-- ===== src/Registration/Data.antt =====
-- The conditional data of buildProviderSpec, for each parameter that has any.
use provider_operator_exampl.Base.{◌∷◌, [], List, String}
use provider_operator_exampl.Api.{provisioning_cloud_provider, provisioning_plan, ParameterType}
use provider_operator_exampl.Registration.Types.{ConditionalData, Choice, FieldDependency, Plans}

abbrev choice : String → String → Choice
choice value display = record { value = value; display_value = display }

abbrev depends : ParameterType → String → FieldDependency
depends field value = record { field = field; value = value }

module _ (plans : Plans) where
  unfoldable pub plan_data : List ConditionalData
  plan_data =
      record {
        dependencies = [];
        options =
            (choice plans.free_trial "Free trial")
            ∷ (choice plans.serverless "Serverless")
            ∷ (choice plans.dedicated "Dedicated")
            ∷ [];
        default_value = plans.serverless;
      }
      ∷ []

  unfoldable pub cloud_provider_data : List ConditionalData
  cloud_provider_data =
      record {
        dependencies = (depends provisioning_plan plans.free_trial) ∷ [];
        options = (choice "GCP" "Google Cloud Platform") ∷ [];
        default_value = "GCP";
      }
      ∷ record {
        dependencies = (depends provisioning_plan plans.serverless) ∷ [];
        options =
            (choice "AWS" "Amazon Web Services") ∷ (choice "GCP" "Google Cloud Platform") ∷ [];
        default_value = "AWS";
      }
      ∷ record {
        dependencies = (depends provisioning_plan plans.dedicated) ∷ [];
        options =
            (choice "AWS" "Amazon Web Services") ∷ (choice "GCP" "Google Cloud Platform") ∷ [];
        default_value = "AWS";
      }
      ∷ []

  unfoldable pub regions_data : List ConditionalData
  regions_data =
      record {
        dependencies =
            (depends provisioning_plan plans.dedicated)
            ∷ (depends provisioning_cloud_provider "AWS")
            ∷ [];
        options =
            (choice "us-east-2" "Ohio (us-east-2)")
            ∷ (choice "us-east-1" " N. Virginia (us-east-1)")
            ∷ (choice "us-west-2" "Oregon (us-west-2)")
            ∷ (choice "eu-west-1" "Ireland (eu-west-1)")
            ∷ [];
        default_value = "us-east-2";
      }
      ∷ record {
        dependencies =
            (depends provisioning_plan plans.serverless)
            ∷ (depends provisioning_cloud_provider "AWS")
            ∷ [];
        options =
            (choice "us-east-2" "Ohio (us-east-2)")
            ∷ (choice "us-east-1" " N. Virginia (us-east-1)")
            ∷ (choice "us-west-2" "Oregon (us-west-2)")
            ∷ (choice "eu-west-1" "Ireland (eu-west-1)")
            ∷ [];
        default_value = "us-east-2";
      }
      ∷ record {
        dependencies =
            (depends provisioning_plan plans.dedicated)
            ∷ (depends provisioning_cloud_provider "GCP")
            ∷ [];
        options =
            (choice "us-east4" "N. Virginia (us-east")
            ∷ (choice "us-east1" "South Carolina (us-east1)")
            ∷ [];
        default_value = "us-east1";
      }
      ∷ record {
        dependencies =
            (depends provisioning_plan plans.serverless)
            ∷ (depends provisioning_cloud_provider "GCP")
            ∷ [];
        options =
            (choice "us-east4" "N. Virginia (us-east")
            ∷ (choice "us-east1" "South Carolina (us-east1)")
            ∷ [];
        default_value = "us-east1";
      }
      ∷ []

  unfoldable pub nodes_data : List ConditionalData
  nodes_data =
      record {
        dependencies = (depends provisioning_plan plans.dedicated) ∷ [];
        options = (choice "1" "1") ∷ (choice "3" "3") ∷ (choice "5" "5") ∷ [];
        default_value = "3";
      }
      ∷ []

  unfoldable pub machine_type_data : List ConditionalData
  machine_type_data =
      record {
        dependencies =
            (depends provisioning_plan plans.dedicated)
            ∷ (depends provisioning_cloud_provider "AWS")
            ∷ [];
        options =
            (choice "m5.large" "2 vCPU, 8 GiB RAM")
            ∷ (choice "m5.xlarge" "4 vCPU, 16 GiB RAM")
            ∷ (choice "m5.2xlarge" "8 vCPU, 32 GiB RAM")
            ∷ (choice "m5.4xlarge" "16 vCPU, 64 GiB RAM")
            ∷ (choice "m5.8xlarge" "32 vCPU, 128 GiB RAM")
            ∷ [];
        default_value = "m5.large";
      }
      ∷ record {
        dependencies =
            (depends provisioning_plan plans.dedicated)
            ∷ (depends provisioning_cloud_provider "GCP")
            ∷ [];
        options =
            (choice "n1-standard-2" "2 vCPU, 7.5 GiB RAM")
            ∷ (choice "n1-standard-4" "4 vCPU, 15 GiB RAM")
            ∷ (choice "n1-standard-8" "8 vCPU, 30 GiB RAM")
            ∷ (choice "n1-standard-16" "16 vCPU, 60 GiB RAM")
            ∷ (choice "n1-standard-32" "32 vCPU, 120 GiB RAM")
            ∷ [];
        default_value = "n1-standard-2";
      }
      ∷ []

  unfoldable pub storage_data : List ConditionalData
  storage_data =
      record {
        dependencies =
            (depends provisioning_plan plans.dedicated)
            ∷ (depends provisioning_cloud_provider "AWS")
            ∷ [];
        options =
            (choice "15" "15 GiB")
            ∷ (choice "35" "35 GiB")
            ∷ (choice "75" "75 GiB")
            ∷ (choice "150" "150 GiB")
            ∷ (choice "300" "300 GiB")
            ∷ (choice "600" "600 GiB")
            ∷ [];
        default_value = "15";
      }
      ∷ record {
        dependencies =
            (depends provisioning_plan plans.dedicated)
            ∷ (depends provisioning_cloud_provider "GCP")
            ∷ [];
        options =
            (choice "15" "15 GiB")
            ∷ (choice "35" "35 GiB")
            ∷ (choice "75" "75 GiB")
            ∷ (choice "150" "150 GiB")
            ∷ (choice "300" "300 GiB")
            ∷ (choice "600" "600 GiB")
            ∷ [];
        default_value = "15";
      }
      ∷ []

  unfoldable pub spend_limit_data : List ConditionalData
  spend_limit_data =
      record {
        dependencies = (depends provisioning_plan plans.serverless) ∷ [];
        options = [];
        default_value = "0";
      }
      ∷ []
