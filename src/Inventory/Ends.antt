-- ===== src/Inventory/Ends.antt =====
-- The ways in which a reconciliation of an inventory ends, and what each leaves behind.
use provider_operator_exampl.Base.{
  true, false, some, List, ◌≡◌, ap, ok, err, ran, answered, refused, panicked, arith,
}
use provider_operator_exampl.Api.{
  ObjectKey, ConditionStatus, condition_true, condition_false, DatabaseService, ProviderInventory,
  InventoryStatus,
}
use provider_operator_exampl.Api.Reasons.{
  ConditionReason, input_error, backend_error, inventory_sync_ok, reason_text,
}
use provider_operator_exampl.Host.{Host}
use provider_operator_exampl.Host.Server.{Server, SetsConditions, Shows, key_of}
use provider_operator_exampl.Service.{ProviderService}
use provider_operator_exampl.Inventory.{
  update_inventory_status, inventory_condition, with_conditions, with_services, secret_selector,
}

module _ (H : Host) (V : Server H) (C : SetsConditions H) where
  open H use {World, Err}

  -- The stored inventory has these services, and its condition reads so.
  pub record Stored (inventory : ProviderInventory) (services : List DatabaseService)
      (status : ConditionStatus) (reason : ConditionReason) (w : World) : Type 0 where
    pub object : ProviderInventory
    pub at_key : V.inventory_at w (key_of inventory.metadata) ≡ some object
    pub services_kept : object.status.database_services ≡ services
    pub condition :
        Shows object.status.conditions (inventory_condition status reason (reason_text reason))

  -- The update of the status that sets this condition was refused with the error.
  abbrev pub Refused :
      ProviderInventory → ConditionStatus → ConditionReason → Err → World → World → Type 0
  Refused inventory status reason e w w' =
      H.update_inventory_status
        (with_conditions inventory (
          H.set_status_condition w inventory.status.conditions
            (inventory_condition status reason (reason_text reason))))
        w
      ≡ err e w'

  -- The write was stored, or another writer came first.
  pub data Written (inventory : ProviderInventory) (status : ConditionStatus)
      (reason : ConditionReason) (w w' : World) : Type 0 where
    stored :
        Stored inventory inventory.status.database_services status reason w'
        → Written inventory status reason w w'
    conflict :
        (e : Err)
        → Refused inventory status reason e w w'
        → H.is_conflict e ≡ true
        → Written inventory status reason w w'

  pub update_inventory_status-Written :
      (inventory : ProviderInventory) (status : ConditionStatus) (reason : ConditionReason)
      (w w' : World)
      → update_inventory_status H inventory status reason (reason_text reason) w ≡ ok tt w'
      → Written inventory status reason w w'
  unfolding update_inventory_status
  update_inventory_status-Written inventory status reason w w' h =
      let conditions =
        H.set_status_condition w inventory.status.conditions
          (inventory_condition status reason (reason_text reason)) in
      let x = with_conditions inventory conditions in
      elim (ran (H.update_inventory_status x w)) [
        | answered x' w₁ e ↦
            let (y, at, same) = V.inventory_stored x x' w w' (ground arith) in
            stored (record {
              object = y;
              at_key = at;
              services_kept = ap (λ (t : InventoryStatus). t.database_services) same;
              condition = rw same (
                  C.shows w inventory.status.conditions
                    (inventory_condition status reason (reason_text reason)));
            })
        | refused x' w₁ e ↦ conflict x' (ground arith) (ground arith)
        | panicked w₁ e ↦ absurd (ground arith)
      ]

module _ (H : Host) (V : Server H) (C : SetsConditions H) (S : ProviderService H) where
  open H use {World, Err}

  pub update_inventory_status-Refused :
      (inventory : ProviderInventory) (status : ConditionStatus) (reason : ConditionReason)
      (e : Err) (w w' : World)
      → update_inventory_status H inventory status reason (reason_text reason) w ≡ err e w'
      → Refused H V C inventory status reason e w w' × (H.is_conflict e ≡ false)
  unfolding update_inventory_status
  update_inventory_status-Refused inventory status reason e w w' h = (ground arith, ground arith)

  -- The step of the provider that failed after the inventory was read, and the reason that is
  -- reported for it.
  pub data Cause (inventory : ProviderInventory) (w : World)
      : ConditionReason → Err → World → Type 0 where
    no_cloud :
        (e : Err) (w₁ : World)
        → S.create_cloud_service (secret_selector inventory) w ≡ err e w₁
        → Cause inventory w input_error e w₁
    no_clusters :
        (cloud : S.Cloud) (e : Err) (w₁ w₂ : World)
        → S.create_cloud_service (secret_selector inventory) w ≡ ok cloud w₁
        → S.discover_clusters cloud w₁ ≡ err e w₂
        → Cause inventory w backend_error e w₂

  -- The status update that reports a failure was made, or was itself refused.
  pub data Reported (inventory : ProviderInventory) (reason : ConditionReason) (w w' : World)
      : Type 0 where
    written : Written H V C inventory condition_false reason w w' → Reported inventory reason w w'
    unwritten :
        (e : Err)
        → Refused H V C inventory condition_false reason e w w'
        → H.is_conflict e ≡ false
        → Reported inventory reason w w'

  pub data Failure (request : ObjectKey) (w : World) (e : Err) (w' : World) : Type 0 where
    unread :
        H.get_inventory request w ≡ err e w' → H.is_not_found e ≡ false → Failure request w e w'
    unsynced :
        (inventory : ProviderInventory) (reason : ConditionReason) (w₁ w₂ : World)
        → H.get_inventory request w ≡ ok inventory w₁
        → Cause inventory w₁ reason e w₂
        → Reported inventory reason w₂ w'
        → Failure request w e w'
    unsaved :
        (inventory : ProviderInventory) (cloud : S.Cloud) (services : List DatabaseService)
        (w₁ w₂ w₃ : World)
        → H.get_inventory request w ≡ ok inventory w₁
        → S.create_cloud_service (secret_selector inventory) w₁ ≡ ok cloud w₂
        → S.discover_clusters cloud w₂ ≡ ok services w₃
        → Refused H V C (with_services inventory services) condition_true inventory_sync_ok e w₃ w'
        → H.is_conflict e ≡ false
        → Failure request w e w'

  pub data Finish (request : ObjectKey) (w w' : World) : Type 0 where
    absent :
        (e : Err)
        → H.get_inventory request w ≡ err e w'
        → H.is_not_found e ≡ true
        → Finish request w w'
    synced :
        (inventory : ProviderInventory) (cloud : S.Cloud) (services : List DatabaseService)
        (w₁ w₂ w₃ : World)
        → H.get_inventory request w ≡ ok inventory w₁
        → S.create_cloud_service (secret_selector inventory) w₁ ≡ ok cloud w₂
        → S.discover_clusters cloud w₂ ≡ ok services w₃
        → Written H V C (with_services inventory services) condition_true inventory_sync_ok w₃ w'
        → Finish request w w'
