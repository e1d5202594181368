-- ===== src/Service/Info.antt =====
-- PopulateInstanceInfo of controllers/dbaas/testutil/fakeproviderservice.go.
pub mod Keys
use provider_operator_exampl.Base.{
  ℕ, suc, String, ◌<>◌, List, [], ◌∷◌, Option, none, some, length, itoa,
}
use provider_operator_exampl.Base.Dict.{Dict, insert}
use provider_operator_exampl.Service.{Region, Cluster}

-- The keys of a region, by its place counted from 1.
unfoldable pub name_key : ℕ → String
name_key n = "regions." <> (itoa n <> ".name")

unfoldable pub dns_key : ℕ → String
dns_key n = "regions." <> (itoa n <> ".sqlDns")

-- The loop over the regions, from the place `i` counted from 0.
unfoldable pub add_regions : ℕ → List Region → Dict String → Dict String
add_regions i [] d = d
add_regions i (r ∷ regions) d =
    add_regions (suc i) regions
      (insert (dns_key (suc i)) r.sql_dns (insert (name_key (suc i)) r.name d))

-- The map literal, from the cluster and the texts of its two times.
unfoldable pub base_info : Cluster → String → String → Dict String
base_info cluster created updated =
    ("numOfRegions", itoa (length cluster.regions))
    ∷ ("Version", cluster.version)
    ∷ ("operationStatus", cluster.operation_status)
    ∷ ("creatorId", cluster.creator_id)
    ∷ ("cloudProvider", cluster.cloud_provider)
    ∷ ("plan", cluster.plan)
    ∷ ("state", cluster.state)
    ∷ ("createAt", created)
    ∷ ("updateAt", updated)
    ∷ []

-- A nil time panics: `none`.
unfoldable pub populate_instance_info : Cluster → Option (Dict String)
populate_instance_info cluster = elim cluster.created_at [
  | none ↦ none
  | some created ↦ elim cluster.updated_at [
    | none ↦ none
    | some updated ↦ some (add_regions 0 cluster.regions (base_info cluster created updated))
  ]
]
