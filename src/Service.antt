-- ===== src/Service.antt =====
-- The `DBaaSProviderService` interface of controllers/dbaas/testutil/fakeproviderservice.go, which
-- the controllers embed, and the cluster data of fakeclient.go that it speaks of.
pub mod Info
pub mod Calm
use provider_operator_exampl.Base.{ℕ, String, Option, List, M}
use provider_operator_exampl.Api.{ObjectKey, DatabaseService, ProviderInstance}
use provider_operator_exampl.Host.{Host}

pub record Region : Type 0 where
  pub name : String
  pub sql_dns : String
  pub ui_dns : String
  pub node_count : ℕ  -- int32, 0 for serverless clusters

-- A time is kept as the text that `String()` gives; a nil pointer is `none`. The maps of
-- additional properties, which nothing reads, are left out.
pub record Cluster : Type 0 where
  pub id : String
  pub name : String
  pub version : String
  pub plan : String
  pub cloud_provider : String
  pub account_id : Option String
  pub state : String
  pub creator_id : String
  pub operation_status : String
  pub regions : List Region
  pub created_at : Option String
  pub updated_at : Option String
  pub deleted_at : Option String

-- The four methods beside `client.Client`. `Cloud` is the `Service` that CreateCloudService gives,
-- and a cluster pointer may be nil.
pub record ProviderService (H : Host) : Type 1 where
  pub Cloud : Type 0
  pub create_cloud_service : ObjectKey → M H.World H.Err Cloud
  pub discover_clusters : Cloud → M H.World H.Err (List DatabaseService)
  pub create_cluster : Cloud → ProviderInstance → M H.World H.Err (Option Cluster)
  pub get_cluster : Cloud → String → M H.World H.Err (Option Cluster)
