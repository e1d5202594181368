-- ===== src/Registration/Spec/Choices.antt =====
-- The entries of the offer of buildProviderSpec that apply to what a user has chosen.
use provider_operator_exampl.Registration.Types.{
  Plans, ProvisioningParameter, ConditionalData, FieldDependency,
}
use provider_operator_exampl.Registration.Spec.{build_provider_spec}
use provider_operator_exampl.Registration.Data.{
  plan_data, spend_limit_data, nodes_data, storage_data, cloud_provider_data, regions_data,
  machine_type_data,
}
use provider_operator_exampl.Base.{
  inr, inl, ◌⊎◌, ◌≡◌, [], ◌&&◌, suc, ◌==◌, refl, if◌then◌else◌, ◌∷◌, ne_of_test, true, String,
  arith, ℕ, ◌≤◌, Bool, ◌≢◌, All, List,
}
use provider_operator_exampl.Api.{provisioning_plan, provisioning_cloud_provider, ParameterType}

-- What a user has chosen so far.
abbrev pub Selection : Type 0
Selection = ParameterType → String

abbrev pub meets : Selection → List FieldDependency → Bool
meets chosen [] = true
meets chosen (d ∷ ds) = chosen d.field == d.value && meets chosen ds

-- How many entries apply: those whose dependencies all hold.
unfoldable pub applicable : Selection → List ConditionalData → ℕ
applicable chosen [] = 0
applicable chosen (d ∷ ds) =
    let rest = applicable chosen ds in if meets chosen d.dependencies then suc rest else rest

-- The three plans differ.
pub record AreDistinct (plans : Plans) : Type 0 where
  pub free_serverless : plans.free_trial ≢ plans.serverless
  pub free_dedicated : plans.free_trial ≢ plans.dedicated
  pub serverless_dedicated : plans.serverless ≢ plans.dedicated

abbrev IsClear : Selection → List ConditionalData → Type 0
IsClear chosen data_list = applicable chosen data_list ≤ 1

-- One if the first case holds, and one if the second does.
abbrev pub if_first : {A B : Type 0} → A ⊎ B → ℕ
if_first (inl _) = 1
if_first (inr _) = 0

abbrev pub if_second : {A B : Type 0} → A ⊎ B → ℕ
if_second (inl _) = 0
if_second (inr _) = 1

module _ (plans : Plans) (distinct : AreDistinct plans) (chosen : Selection) where
  regions-IsClear : IsClear chosen (regions_data plans)
  unfolding applicable regions_data
  regions-IsClear = ground (arith, ne_of_test "AWS" "GCP" refl)

  machine_type-IsClear : IsClear chosen (machine_type_data plans)
  unfolding applicable machine_type_data
  machine_type-IsClear = ground (arith, ne_of_test "AWS" "GCP" refl)

  storage-IsClear : IsClear chosen (storage_data plans)
  unfolding applicable storage_data
  storage-IsClear = ground (arith, ne_of_test "AWS" "GCP" refl)

  cloud_provider-IsClear : IsClear chosen (cloud_provider_data plans)
  unfolding applicable cloud_provider_data
  cloud_provider-IsClear = ground arith

  plan-IsClear : IsClear chosen (plan_data plans)
  unfolding applicable plan_data
  plan-IsClear = ground arith

  nodes-IsClear : IsClear chosen (nodes_data plans)
  unfolding applicable nodes_data
  nodes-IsClear = ground arith

  spend_limit-IsClear : IsClear chosen (spend_limit_data plans)
  unfolding applicable spend_limit_data
  spend_limit-IsClear = ground arith

  nil-IsClear : IsClear chosen []
  unfolding applicable
  nil-IsClear = omega arith

  -- Where the three plans differ, at most one entry of the conditional data of each parameter
  -- applies, whatever is chosen.
  pub unambiguous_offer :
      (regions nodes : ProvisioningParameter)
      → All
          (λ (entry : ParameterType × ProvisioningParameter).
            applicable chosen entry.1.conditional_data ≤ 1)
          (build_provider_spec plans regions nodes).provisioning_parameters
  unfolding build_provider_spec
  unambiguous_offer regions nodes = (
    nil-IsClear,
    (
      plan-IsClear,
      (
        cloud_provider-IsClear,
        (
          regions-IsClear,
          (
            nodes-IsClear,
            (
              machine_type-IsClear,
              (
                storage-IsClear,
                (
                  spend_limit-IsClear,
                  (nil-IsClear, (nil-IsClear, (nil-IsClear, (nil-IsClear, (nil-IsClear, tt))))),
                ),
              ),
            ),
          ),
        ),
      ),
    ),
  )

  -- Where the three plans differ, a dedicated plan in one of the two clouds has exactly one entry
  -- for its regions, nodes, machine types, storage and clouds.
  pub dedicated_offer :
      (chosen provisioning_cloud_provider ≡ "AWS") ⊎ (chosen provisioning_cloud_provider ≡ "GCP")
      → chosen provisioning_plan ≡ plans.dedicated
      → (applicable chosen (regions_data plans) ≡ 1)
        × (applicable chosen (nodes_data plans) ≡ 1)
        × (applicable chosen (machine_type_data plans) ≡ 1)
        × (applicable chosen (storage_data plans) ≡ 1)
        × (applicable chosen (cloud_provider_data plans) ≡ 1)
  unfolding applicable regions_data nodes_data machine_type_data storage_data cloud_provider_data
  dedicated_offer (inl p) d =
      let ne = ne_of_test "AWS" "GCP" refl in
      (ground arith, ground arith, ground arith, ground arith, ground arith)
  dedicated_offer (inr p) d =
      let ne = ne_of_test "AWS" "GCP" refl in
      (ground arith, ground arith, ground arith, ground arith, ground arith)

  -- Where the three plans differ, a serverless plan in one of the two clouds has exactly one entry
  -- for its regions, clouds and spend limit, and none for what only a dedicated plan has.
  pub serverless_offer :
      (chosen provisioning_cloud_provider ≡ "AWS") ⊎ (chosen provisioning_cloud_provider ≡ "GCP")
      → chosen provisioning_plan ≡ plans.serverless
      → (applicable chosen (regions_data plans) ≡ 1)
        × (applicable chosen (cloud_provider_data plans) ≡ 1)
        × (applicable chosen (spend_limit_data plans) ≡ 1)
        × (applicable chosen (nodes_data plans) ≡ 0)
        × (applicable chosen (machine_type_data plans) ≡ 0)
        × (applicable chosen (storage_data plans) ≡ 0)
  unfolding applicable regions_data nodes_data machine_type_data storage_data cloud_provider_data
      spend_limit_data
  serverless_offer (inl p) s =
      let ne = ne_of_test "AWS" "GCP" refl in
      let differ = distinct.serverless_dedicated in
      let other = distinct.free_serverless in
      (ground arith, ground arith, ground arith, ground arith, ground arith, ground arith)
  serverless_offer (inr p) s =
      let ne = ne_of_test "AWS" "GCP" refl in
      let differ = distinct.serverless_dedicated in
      let other = distinct.free_serverless in
      (ground arith, ground arith, ground arith, ground arith, ground arith, ground arith)

  no_spend_limit :
      chosen provisioning_plan ≡ plans.dedicated → applicable chosen (spend_limit_data plans) ≡ 0
  unfolding applicable spend_limit_data
  no_spend_limit d = let differ = distinct.serverless_dedicated in ground arith

  -- Where the three plans differ, a dedicated or serverless plan in one of the two clouds has exactly
  -- one entry for its regions and clouds; it has one for its nodes, machine types and storage if it
  -- is dedicated and none otherwise, and one for its spend limit if it is serverless and none
  -- otherwise.
  pub paid_offer :
      (chosen provisioning_cloud_provider ≡ "AWS") ⊎ (chosen provisioning_cloud_provider ≡ "GCP")
      → (plan : (chosen provisioning_plan ≡ plans.dedicated)
          ⊎ (chosen provisioning_plan ≡ plans.serverless))
      → (applicable chosen (regions_data plans) ≡ 1)
        × (applicable chosen (cloud_provider_data plans) ≡ 1)
        × (applicable chosen (nodes_data plans) ≡ if_first plan)
        × (applicable chosen (machine_type_data plans) ≡ if_first plan)
        × (applicable chosen (storage_data plans) ≡ if_first plan)
        × (applicable chosen (spend_limit_data plans) ≡ if_second plan)
  paid_offer clouds (inl d) =
      let (r, n, m, s, c) = dedicated_offer clouds d in (r, c, n, m, s, no_spend_limit d)
  paid_offer clouds (inr s) =
      let (r, c, l, n, m, t) = serverless_offer clouds s in (r, c, n, m, t, l)
