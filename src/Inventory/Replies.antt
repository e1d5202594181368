-- ===== src/Inventory/Replies.antt =====
-- A reconciliation of an inventory where no call panics.
use provider_operator_exampl.Base.{err, ok, List, String}
use provider_operator_exampl.Host.{Host}
use provider_operator_exampl.Service.{ProviderService}
use provider_operator_exampl.Service.Calm.{
  CalmHost, CalmService, Calmly, IsCalm, Replied, Replies, reply, either, proceed-holds, Any,
}
use provider_operator_exampl.Inventory.{report, sync, update_inventory_status, reconcile}
use provider_operator_exampl.Api.{
  condition_false, DatabaseService, ConditionStatus, ProviderInventory, ObjectKey,
}
use provider_operator_exampl.Api.Reasons.{input_error, backend_error, ConditionReason}

module _ (H : Host) (Good : H.World → Type 0) (K : CalmHost H Good) where
  open H use {World, Err}

  update_inventory_status-IsCalm :
      (inventory : ProviderInventory) (status : ConditionStatus) (reason : ConditionReason)
      (message : String)
      → IsCalm Good Any (update_inventory_status H inventory status reason message)
  unfolding update_inventory_status
  update_inventory_status-IsCalm inventory status reason message w good =
      proceed-holds Good Any (Calmly Good Any) _ _ _ (K.update_inventory_status _ w good)
        (λ _ w₁ _ g. (tt, g))
        (λ e w₁ g. either Good (Calmly Good Any) (H.is_conflict e) (ok tt w₁) (err e w₁) (tt, g) g)

  module _ (S : ProviderService H) (T : CalmService H S Good) where
    report-Replies :
        (inventory : ProviderInventory) (reason : ConditionReason) (e : Err)
        → Replies Good (report H S inventory reason e)
    report-Replies inventory reason e w good =
        proceed-holds Good Any (Replied Good) _ _ _
          (update_inventory_status-IsCalm inventory condition_false reason _ w good)
          (λ _ w₁ _ g. reply Good _ w₁ g) (λ _ w₁ g. reply Good _ w₁ g)

    sync-Replies :
        (inventory : ProviderInventory) (services : List DatabaseService)
        → Replies Good (sync H S inventory services)
    sync-Replies inventory services w good =
        proceed-holds Good Any (Replied Good) _ _ _ (update_inventory_status-IsCalm _ _ _ _ w good)
          (λ _ w₁ _ g. reply Good _ w₁ g) (λ _ w₁ g. reply Good _ w₁ g)

    -- Where no call of the host and of the provider panics in a good world, and each leaves a good
    -- world, every reconciliation of an inventory in a good world returns, in a good world.
    pub inventory_reconcile-Replies : (request : ObjectKey) → Replies Good (reconcile H S request)
    unfolding reconcile
    inventory_reconcile-Replies request w good =
        proceed-holds Good Any (Replied Good) _ _ _ (K.get_inventory request w good)
          (λ inventory w₁ _ g₁.
            proceed-holds Good Any (Replied Good) _ _ _ (T.create_cloud_service _ w₁ g₁)
              (λ cloud w₂ _ g₂.
                proceed-holds Good Any (Replied Good) _ _ _ (T.discover_clusters cloud w₂ g₂)
                  (λ services w₃ _. sync-Replies inventory services w₃)
                  (report-Replies inventory backend_error))
              (report-Replies inventory input_error))
          (λ e w₁ g₁. either Good (Replied Good) _ _ _ (reply Good _ w₁ g₁) (reply Good _ w₁ g₁))
