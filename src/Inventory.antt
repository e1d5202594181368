-- ===== src/Inventory.antt =====
-- ProviderInventoryReconciler, controllers/dbaas/providerinventory_controller.go. Log lines are
-- left out.
pub mod Ends
pub mod Laws
pub mod Replies
use provider_operator_exampl.Base.{List, [], ◌∷◌, String, if◌then◌else◌, M, ok, err, handle, return}
use provider_operator_exampl.Api.{
  ObjectKey, ConditionStatus, condition_true, condition_false, Condition, DatabaseService,
  ProviderInventory, ProviderInstance,
}
use provider_operator_exampl.Api.Reasons.{
  ConditionReason, input_error, backend_error, inventory_sync_ok, reason_text,
  inventory_condition_type_ready,
}
use provider_operator_exampl.Host.{Host, Reply, done, failed}
use provider_operator_exampl.Service.{ProviderService}

-- The condition that updateInventoryStatus builds.
abbrev pub inventory_condition : ConditionStatus → ConditionReason → String → Condition
inventory_condition status reason message = record {
  type = inventory_condition_type_ready;
  status = status;
  reason = reason_text reason;
  message = message;
  last_transition_time = "";
}

-- `inventory.Status.DatabaseServices = instanceLst`
abbrev pub with_services : ProviderInventory → List DatabaseService → ProviderInventory
with_services inventory services = record inventory {
  status = record inventory.status { database_services = services };
}

abbrev pub with_conditions : ProviderInventory → List Condition → ProviderInventory
with_conditions inventory conditions = record inventory {
  status = record inventory.status { conditions = conditions };
}

-- The name of the credentials, in the namespace of the inventory.
abbrev pub secret_selector : ProviderInventory → ObjectKey
secret_selector inventory = record {
  namespace = inventory.metadata.namespace;
  name = inventory.credentials_ref;
}

-- The MapFunc of SetupWithManager: an instance wakes the inventory that it refers to.
unfoldable pub instance_requests : ProviderInstance → List ObjectKey
instance_requests instance =
    record {
      namespace = instance.spec.inventory_ref.namespace;
      name = instance.spec.inventory_ref.name;
    }
    ∷ []

module _ (H : Host) where
  open H use {World, Err}

  unfoldable pub update_inventory_status :
      ProviderInventory → ConditionStatus → ConditionReason → String → M World Err (Unit {0})
  update_inventory_status inventory status reason message w =
      let condition = inventory_condition status reason message in
      let conditions = H.set_status_condition w inventory.status.conditions condition in
      handle (H.update_inventory_status (with_conditions inventory conditions))
        (λ e w'. if H.is_conflict e then ok tt w' else err e w') (λ _ w'. ok tt w') w

module _ (H : Host) (S : ProviderService H) where
  open H use {World, Err}

  -- The error of a step is returned whether or not the status could be updated.
  abbrev report : ProviderInventory → ConditionReason → Err → M World Err (Reply Err)
  report inventory reason e =
      handle (update_inventory_status H inventory condition_false reason (reason_text reason))
        (λ _. return (failed e)) (λ _. return (failed e))

  abbrev sync : ProviderInventory → List DatabaseService → M World Err (Reply Err)
  sync inventory services =
      handle
        (update_inventory_status H (with_services inventory services) condition_true
          inventory_sync_ok (reason_text inventory_sync_ok))
        (λ e. return (failed e)) (λ _. return done)

  unfoldable pub reconcile : ObjectKey → M World Err (Reply Err)
  reconcile request =
      handle (H.get_inventory request)
        (λ e w. if H.is_not_found e then ok done w else ok (failed e) w)
        λ inventory.
          handle (S.create_cloud_service (secret_selector inventory)) (report inventory input_error)
            λ cloud.
              handle (S.discover_clusters cloud) (report inventory backend_error) (sync inventory)
