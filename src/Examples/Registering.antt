-- ===== src/Examples/Registering.antt =====
-- The registration reconciler on a host in memory, and the offer with three plans.
use provider_operator_exampl.Base.{
  return, inr, String-dec, ◌≤◌, [], ◌↔◌, ◌∷◌, err, if◌then◌else◌, All, M, ne_of_test, ◌≡◌, arith,
  true, ok, refl,
}
use provider_operator_exampl.Host.{done}
use provider_operator_exampl.Host.Memory.{missing, memory, Store, MemoryError}
use provider_operator_exampl.Registration
use provider_operator_exampl.Registration.{
  empty_parameter, ClusterRole, Registrar, Operator, DBaaSProvider, provider_resource_name,
}
use provider_operator_exampl.Registration.Laws.{Finish, registration_reconcile-Finish}
use provider_operator_exampl.Registration.Once.{Registry, reconcile_registers}
use provider_operator_exampl.Registration.Deployments.{
  ignore_other_deployments, ignore_other_deployments_iff, create_event, IsOwn,
}
use provider_operator_exampl.Registration.Types.{ProvisioningParameter, Plans}
use provider_operator_exampl.Registration.Spec.Rules.{
  build_provider_spec-IsConsistent, IsConsistent,
}
use provider_operator_exampl.Registration.Spec.Choices.{
  paid_offer, AreDistinct, unambiguous_offer, Selection, applicable,
}
use provider_operator_exampl.Examples.Objects.{key, meta, store, instance_named}
use provider_operator_exampl.Api.{
  ParameterType, provisioning_cloud_provider, ObjectMeta, provisioning_plan,
}
use provider_operator_exampl.Registration.Data.{
  spend_limit_data, cloud_provider_data, storage_data, machine_type_data, nodes_data, regions_data,
}
use provider_operator_exampl.Registration.Spec.{build_provider_spec}

abbrev three_plans : Plans
three_plans = record {
  free_trial = "FREETRIAL";
  serverless = "SERVERLESS";
  dedicated = "DEDICATED";
}

three_plans-AreDistinct : AreDistinct three_plans
three_plans-AreDistinct = record {
  free_serverless = ne_of_test "FREETRIAL" "SERVERLESS" refl;
  free_dedicated = ne_of_test "FREETRIAL" "DEDICATED" refl;
  serverless_dedicated = ne_of_test "SERVERLESS" "DEDICATED" refl;
}

abbrev operator : Operator
operator = record {
  operator_name_version = "provider-operator.v0.0.1";
  operator_install_namespace = "dbaas";
}

abbrev role : ClusterRole
role = record { name = "provider-role"; uid = "4711" }

abbrev see_registered : Store → M Store MemoryError (Unit {0})
see_registered s w = if s.registered then ok tt w else err missing w

abbrev registrar : Registrar Store MemoryError
registrar = record {
  get_deployment = λ _ w. ok tt w;
  server_resources = λ _ w. ok ("DBaaSInventory" ∷ "DBaaSProvider" ∷ []) w;
  get_provider = λ _ w. see_registered w w;
  list_cluster_roles = λ _ w. ok (role ∷ []) w;
  create_provider = λ _ w. ok tt (record w { registered = true });
  new_not_found = λ _ _ _. missing;
  group_version = "dbaas.redhat.com/v1beta1";
  plans = three_plans;
}

ok-registered :
    {A : Type 0} (a b : A) (w w' : Store)
    → return {W = Store} {E = MemoryError} a w ≡ ok b w'
    → w'.registered ≡ w.registered
ok-registered a b w w' h = ground arith

see_registered-shown : (w w' : Store) → see_registered w w ≡ ok tt w' → w'.registered ≡ true
see_registered-shown w w' h = ground arith

abbrev registry : Registry memory registrar
registry = record {
  is_registered = λ w. w.registered;
  shown = see_registered-shown;
  created = λ cr w w' n h. ok-registered tt tt (record w { registered = true }) w' h;
}

abbrev unregistered : Store
unregistered = store (instance_named "orders")

abbrev registered_store : Store
registered_store = record unregistered { registered = true }

registered :
    Registration.reconcile memory registrar operator (key "deployment") unregistered
    ≡ ok done registered_store
unfolding Registration.reconcile Registration.has_kind String-dec Registration.build_provider_cr
registered = refl

registration_reconcile-Finish_example :
    Finish memory registrar operator (key "deployment") unregistered registered_store
registration_reconcile-Finish_example =
    registration_reconcile-Finish memory registrar operator (key "deployment") unregistered
      registered_store registered

reconcile_registers_example : registered_store.registered ≡ true
reconcile_registers_example =
    reconcile_registers memory registrar registry operator (key "deployment") unregistered
      unregistered registered_store refl registered

abbrev own_deployment : ObjectMeta
own_deployment = record (meta "provider-operator") {
  labels =
      ("olm.owner.kind", "ClusterServiceVersion") ∷ ("olm.owner", "provider-operator.v0.0.1") ∷ [];
}

ignore_other_deployments_iff_example :
    (ignore_other_deployments operator (create_event own_deployment) ≡ true) ↔ (
      (object : ObjectMeta) × (create_event own_deployment ≡ create_event object)
      × IsOwn operator object)
ignore_other_deployments_iff_example =
    ignore_other_deployments_iff operator (create_event own_deployment)

abbrev dedicated_on_aws : Selection
dedicated_on_aws provisioning_plan = "DEDICATED"
dedicated_on_aws provisioning_cloud_provider = "AWS"
dedicated_on_aws _ = ""

build_provider_spec-IsConsistent_example :
    All
      (λ (entry : ParameterType × ProvisioningParameter).
        All
          (IsConsistent
            (build_provider_spec three_plans empty_parameter
              empty_parameter).provisioning_parameters)
          entry.1.conditional_data)
      (build_provider_spec three_plans empty_parameter empty_parameter).provisioning_parameters
build_provider_spec-IsConsistent_example =
    build_provider_spec-IsConsistent three_plans empty_parameter empty_parameter

unambiguous_offer_example :
    All
      (λ (entry : ParameterType × ProvisioningParameter).
        applicable dedicated_on_aws entry.1.conditional_data ≤ 1)
      (build_provider_spec three_plans empty_parameter empty_parameter).provisioning_parameters
unambiguous_offer_example =
    unambiguous_offer three_plans three_plans-AreDistinct dedicated_on_aws empty_parameter
      empty_parameter

abbrev serverless_on_gcp : Selection
serverless_on_gcp provisioning_plan = "SERVERLESS"
serverless_on_gcp provisioning_cloud_provider = "GCP"
serverless_on_gcp _ = ""

paid_offer_example :
    (applicable serverless_on_gcp (regions_data three_plans) ≡ 1)
    × (applicable serverless_on_gcp (cloud_provider_data three_plans) ≡ 1)
    × (applicable serverless_on_gcp (nodes_data three_plans) ≡ 0)
    × (applicable serverless_on_gcp (machine_type_data three_plans) ≡ 0)
    × (applicable serverless_on_gcp (storage_data three_plans) ≡ 0)
    × (applicable serverless_on_gcp (spend_limit_data three_plans) ≡ 1)
paid_offer_example =
    paid_offer three_plans three_plans-AreDistinct serverless_on_gcp (inr refl) (inr refl)
