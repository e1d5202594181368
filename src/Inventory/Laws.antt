-- ===== src/Inventory/Laws.antt =====
-- What a reconciliation of an inventory leaves behind, on every way through it.
use provider_operator_exampl.Base.{false, List, ◌≡◌, ok, ran, answered, refused, panicked, arith}
use provider_operator_exampl.Api.{
  ObjectKey, condition_true, condition_false, DatabaseService, ProviderInventory,
}
use provider_operator_exampl.Api.Reasons.{
  ConditionReason, input_error, backend_error, inventory_sync_ok, reason_text,
}
use provider_operator_exampl.Host.{Host, done, failed}
use provider_operator_exampl.Host.Server.{Server, SetsConditions}
use provider_operator_exampl.Service.{ProviderService}
use provider_operator_exampl.Inventory.{
  update_inventory_status, with_services, reconcile, report, secret_selector, sync,
}
use provider_operator_exampl.Inventory.Ends.{
  unsaved, no_clusters, no_cloud, unwritten, synced, unsynced, update_inventory_status-Written,
  absent, update_inventory_status-Refused, written, unread, Reported, Refused, Finish, Failure,
  Written,
}

module _ (H : Host) (V : Server H) (C : SetsConditions H) (S : ProviderService H) where
  open H use {World, Err}

  report-Reported :
      (inventory : ProviderInventory) (reason : ConditionReason) (e e' : Err) (w w' : World)
      → report H S inventory reason e w ≡ ok (failed e') w'
      → (e ≡ e') × Reported H V C S inventory reason w w'
  report-Reported inventory reason e e' w w' h =
      elim (ran
        (update_inventory_status H inventory condition_false reason (reason_text reason) w)) [
          | answered t w₁ u ↦ (
            ground arith,
            written (
                update_inventory_status-Written H V C inventory condition_false reason w w'
                  (ground arith)),
          )
          | refused x w₁ u ↦
              let (z, n) =
                update_inventory_status-Refused H V C S inventory condition_false reason x w w'
                  (ground arith) in
              (ground arith, unwritten x z n)
          | panicked w₁ u ↦ absurd (ground arith)
        ]

  sync-Written :
      (inventory : ProviderInventory) (services : List DatabaseService) (w w' : World)
      → sync H S inventory services w ≡ ok done w'
      → Written H V C (with_services inventory services) condition_true inventory_sync_ok w w'
  sync-Written inventory services w w' h =
      update_inventory_status-Written H V C (with_services inventory services) condition_true
        inventory_sync_ok w w' (ground arith)

  sync-Refused :
      (inventory : ProviderInventory) (services : List DatabaseService) (e : Err) (w w' : World)
      → sync H S inventory services w ≡ ok (failed e) w'
      → Refused H V C (with_services inventory services) condition_true inventory_sync_ok e w w'
        × (H.is_conflict e ≡ false)
  sync-Refused inventory services e w w' h =
      update_inventory_status-Refused H V C S (with_services inventory services) condition_true
        inventory_sync_ok e w w' (ground arith)

  -- A reconciliation of an inventory that ends without an error has found that the inventory is
  -- gone, or has read it, made the cloud service from its secret, discovered its services, and
  -- written these with the condition SyncOK: they are stored, or the write met a conflict.
  pub inventory_reconcile-Finish :
      (request : ObjectKey) (w w' : World)
      → reconcile H S request w ≡ ok done w'
      → Finish H V C S request w w'
  unfolding reconcile
  inventory_reconcile-Finish request w w' h = elim (ran (H.get_inventory request w)) [
    | refused e w₁ u ↦ absent e (ground arith) (ground arith)
    | panicked w₁ u ↦ absurd (ground arith)
    | answered inventory w₁ u ↦ elim (ran (S.create_cloud_service (secret_selector inventory) w₁)) [
      | refused e w₂ v ↦ absurd (ground arith)
      | panicked w₂ v ↦ absurd (ground arith)
      | answered cloud w₂ v ↦ elim (ran (S.discover_clusters cloud w₂)) [
        | refused e w₃ x ↦ absurd (ground arith)
        | panicked w₃ x ↦ absurd (ground arith)
        | answered services w₃ x ↦
            synced inventory cloud services w₁ w₂ w₃ u v x
              (sync-Written inventory services w₃ w' (ground arith))
      ]
    ]
  ]

  -- A reconciliation of an inventory that ends with an error returns the one that occurred: the
  -- inventory could not be read; or the provider failed, which is reported in the stored condition
  -- with the reason of the failed step unless that write is refused too; or the last status update
  -- was refused, and not for a conflict.
  pub inventory_reconcile-Failure :
      (request : ObjectKey) (e : Err) (w w' : World)
      → reconcile H S request w ≡ ok (failed e) w'
      → Failure H V C S request w e w'
  unfolding reconcile
  inventory_reconcile-Failure request e w w' h = elim (ran (H.get_inventory request w)) [
    | refused x w₁ u ↦ unread (ground arith) (ground arith)
    | panicked w₁ u ↦ absurd (ground arith)
    | answered inventory w₁ u ↦ elim (ran (S.create_cloud_service (secret_selector inventory) w₁)) [
      | refused x w₂ v ↦
          let (same, r) = report-Reported inventory input_error x e w₂ w' (ground arith) in
          unsynced inventory input_error w₁ w₂ u (no_cloud e w₂ (rw (← same) v)) r
      | panicked w₂ v ↦ absurd (ground arith)
      | answered cloud w₂ v ↦ elim (ran (S.discover_clusters cloud w₂)) [
        | refused x w₃ y ↦
            let (same, r) = report-Reported inventory backend_error x e w₃ w' (ground arith) in
            unsynced inventory backend_error w₁ w₃ u (no_clusters cloud e w₂ w₃ v (rw (← same) y)) r
        | panicked w₃ y ↦ absurd (ground arith)
        | answered services w₃ y ↦
            let (z, c) = sync-Refused inventory services e w₃ w' (ground arith) in
            unsaved inventory cloud services w₁ w₂ w₃ u v y z c
      ]
    ]
  ]
