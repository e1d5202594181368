-- ===== src/Connection/Replies.antt =====
-- A reconciliation of a connection where no call panics.
use provider_operator_exampl.Base.{inr, inl, ◌⊎◌, String, ok, err}
use provider_operator_exampl.Host.{Host}
use provider_operator_exampl.Service.{ProviderService}
use provider_operator_exampl.Service.Calm.{
  CalmHost, CalmService, Calmly, IsCalm, Replied, Replies, reply, either, proceed-holds, Any,
}
use provider_operator_exampl.Connection.{
  update_status, abandon, bind_connection, choose, reconcile, create_or_update_secret,
  create_or_update_config_map,
}
use provider_operator_exampl.Connection.Build.{with_refs}
use provider_operator_exampl.Api.{
  condition_true, ConfigMap, condition_false, ConditionStatus, DatabaseService, Secret,
  ProviderInventory, ObjectKey, ProviderConnection,
}
use provider_operator_exampl.Api.Reasons.{
  success_connection, connection_ready, backend_error, connection_not_ready, inventory_not_found,
  ConditionReason,
}

module _ (H : Host) (Good : H.World → Type 0) (K : CalmHost H Good) where
  open H use {World, Err}

  update_status-IsCalm :
      (connection : ProviderConnection) (status : ConditionStatus) (reason : ConditionReason)
      (message : String)
      → IsCalm Good Any (update_status H connection status reason message)
  unfolding update_status
  update_status-IsCalm connection status reason message w good =
      proceed-holds Good Any (Calmly Good Any) _ _ _ (K.update_connection_status _ w good)
        (λ _ w₁ _ g. (tt, g))
        (λ e w₁ g. either Good (Calmly Good Any) (H.is_conflict e) (ok tt w₁) (err e w₁) (tt, g) g)

  abandon-Replies :
      (connection : ProviderConnection) (reason : ConditionReason) (e : Err)
      → Replies Good (abandon H connection reason e)
  unfolding abandon
  abandon-Replies connection reason e w good =
      proceed-holds Good Any (Replied Good) _ _ _
        (update_status-IsCalm connection condition_false reason (H.error_text e) w good)
        (λ _ w₁ _ g. reply Good _ w₁ g) (λ _ w₁ g. reply Good _ w₁ g)

  bind_connection-Replies :
      (connection : ProviderConnection) (secret : Secret) (cm : ConfigMap)
      → Replies Good (bind_connection H connection secret cm)
  unfolding bind_connection
  bind_connection-Replies connection secret cm w good =
      proceed-holds Good Any (Replied Good) _ _ _
        (update_status-IsCalm (with_refs connection secret.metadata.name cm.metadata.name)
          condition_true connection_ready success_connection w good)
        (λ _ w₁ _ g. reply Good _ w₁ g) (λ _ w₁ g. reply Good _ w₁ g)

  create_or_update_secret-IsCalm :
      (connection : ProviderConnection) → IsCalm Good Any (create_or_update_secret H connection)
  unfolding create_or_update_secret
  create_or_update_secret-IsCalm connection = K.create_or_update_secret _ _

  create_or_update_config_map-IsCalm :
      (connection : ProviderConnection) (instance : DatabaseService)
      → IsCalm Good Any (create_or_update_config_map H connection instance)
  unfolding create_or_update_config_map
  create_or_update_config_map-IsCalm connection instance = K.create_or_update_config_map _ _

  module _ (S : ProviderService H) (T : CalmService H S Good) where
    choose-Replies :
        (connection : ProviderConnection) (inventory : ProviderInventory)
        (p : Err ⊎ DatabaseService)
        → Replies Good (choose H S connection inventory p)
    choose-Replies connection inventory (inl e) w good =
        abandon-Replies connection connection_not_ready e w good
    choose-Replies connection inventory (inr instance) w good =
        proceed-holds Good Any (Replied Good) _ _ _ (T.create_cloud_service _ w good)
          (λ cloud w₁ _ g₁.
            proceed-holds Good Any (Replied Good) _ _ _
              (create_or_update_secret-IsCalm connection w₁ g₁)
              (λ secret w₂ _ g₂.
                proceed-holds Good Any (Replied Good) _ _ _
                  (create_or_update_config_map-IsCalm connection instance w₂ g₂)
                  (λ cm w₃ _. bind_connection-Replies connection secret cm w₃)
                  (abandon-Replies connection backend_error))
              (abandon-Replies connection backend_error))
          (abandon-Replies connection backend_error)

    -- Where no call of the host and of the provider panics in a good world, and each leaves a good
    -- world, every reconciliation of a connection in a good world returns, in a good world.
    pub connection_reconcile-Replies : (request : ObjectKey) → Replies Good (reconcile H S request)
    unfolding reconcile
    connection_reconcile-Replies request w good =
        proceed-holds Good Any (Replied Good) _ _ _ (K.get_connection request w good)
          (λ connection w₁ _ g₁.
            proceed-holds Good Any (Replied Good) _ _ _ (K.get_inventory _ w₁ g₁)
              (λ inventory w₂ _. choose-Replies connection inventory _ w₂)
              (λ e w₂ g₂.
                either Good (Replied Good) _ _ _
                  (abandon-Replies connection inventory_not_found e w₂ g₂) (reply Good _ w₂ g₂)))
          (λ e w₁ g₁. either Good (Replied Good) _ _ _ (reply Good _ w₁ g₁) (reply Good _ w₁ g₁))
