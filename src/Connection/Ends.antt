-- ===== src/Connection/Ends.antt =====
-- The ways in which a reconciliation of a connection ends, and those that a failed step takes.
use provider_operator_exampl.Base.{
  true, false, inl, inr, ◌≡◌, ok, err, ran, answered, refused, panicked, arith,
}
use provider_operator_exampl.Api.{
  ObjectKey, condition_true, condition_false, DatabaseService, ProviderInventory,
  ProviderConnection,
}
use provider_operator_exampl.Api.Reasons.{
  ConditionReason, inventory_not_found, connection_not_ready, backend_error, connection_ready,
  success_connection,
}
use provider_operator_exampl.Host.{Host, Reply, done, failed, retried}
use provider_operator_exampl.Host.Server.{Server, SetsConditions}
use provider_operator_exampl.Service.{ProviderService}
use provider_operator_exampl.Inventory.{secret_selector}
use provider_operator_exampl.Connection.{
  get_cluster_instance, create_or_update_secret, create_or_update_config_map, update_status,
  abandon,
}
use provider_operator_exampl.Connection.Build.{secret_name, config_map_name, with_refs}
use provider_operator_exampl.Connection.Objects.{
  Refused, HasSecret, HasConfigMap, Stored, Written, update_status-Written, update_status-Refused,
}

module _ (H : Host) (V : Server H) (C : SetsConditions H) (S : ProviderService H) where
  open H use {World, Err}

  -- The step that failed once the connection was read, and the reason that is reported for it.
  pub data Cause (connection : ProviderConnection) (w : World)
      : ConditionReason → Err → World → Type 0 where
    no_inventory :
        (e : Err) (w₁ : World)
        → H.get_inventory connection.spec.inventory_ref w ≡ err e w₁
        → H.is_not_found e ≡ true
        → Cause connection w inventory_not_found e w₁
    no_instance :
        (inventory : ProviderInventory) (e : Err) (w₁ : World)
        → H.get_inventory connection.spec.inventory_ref w ≡ ok inventory w₁
        → get_cluster_instance H inventory connection.spec.database_service_id ≡ inl e
        → Cause connection w connection_not_ready e w₁
    no_cloud :
        (inventory : ProviderInventory) (e : Err) (w₁ w₂ : World)
        → H.get_inventory connection.spec.inventory_ref w ≡ ok inventory w₁
        → S.create_cloud_service (secret_selector inventory) w₁ ≡ err e w₂
        → Cause connection w backend_error e w₂
    no_secret :
        (inventory : ProviderInventory) (cloud : S.Cloud) (e : Err) (w₁ w₂ w₃ : World)
        → H.get_inventory connection.spec.inventory_ref w ≡ ok inventory w₁
        → S.create_cloud_service (secret_selector inventory) w₁ ≡ ok cloud w₂
        → create_or_update_secret H connection w₂ ≡ err e w₃
        → Cause connection w backend_error e w₃
    no_config_map :
        (inventory : ProviderInventory) (instance : DatabaseService) (e : Err) (w₁ w₂ w₃ : World)
        → H.get_inventory connection.spec.inventory_ref w ≡ ok inventory w₁
        → get_cluster_instance H inventory connection.spec.database_service_id ≡ inr instance
        → HasSecret H V connection w₂
        → create_or_update_config_map H connection instance w₂ ≡ err e w₃
        → Cause connection w backend_error e w₃

  -- A connection that is ready: its status names the two objects, and both are stored.
  pub record Bound (connection : ProviderConnection) (instance : DatabaseService) (w : World)
      : Type 0 where
    pub status :
        Stored H V C
          (with_refs connection (secret_name connection) (config_map_name connection))
          condition_true
          connection_ready
          success_connection
          w
    pub secret : HasSecret H V connection w
    pub config_map : HasConfigMap H V connection instance w

  -- After a refused update of the status of a connection whose objects are stored: a conflict ends
  -- the reconciliation, any other error is returned with a request for another.
  pub data Unbound (x : Err) (r : Reply Err) : Type 0 where
    overtaken : H.is_conflict x ≡ true → r ≡ done → Unbound x r
    unwritten : H.is_conflict x ≡ false → r ≡ retried x → Unbound x r

  pub data Ends (request : ObjectKey) (w : World) (r : Reply Err) (w' : World) : Type 0 where
    absent :
        (e : Err)
        → H.get_connection request w ≡ err e w'
        → H.is_not_found e ≡ true
        → r ≡ done
        → Ends request w r w'
    unread :
        (e : Err)
        → H.get_connection request w ≡ err e w'
        → H.is_not_found e ≡ false
        → r ≡ failed e
        → Ends request w r w'
    unread_inventory :
        (connection : ProviderConnection) (e : Err) (w₁ : World)
        → H.get_connection request w ≡ ok connection w₁
        → H.get_inventory connection.spec.inventory_ref w₁ ≡ err e w'
        → H.is_not_found e ≡ false
        → r ≡ failed e
        → Ends request w r w'
    abandoned :
        (connection : ProviderConnection) (reason : ConditionReason) (e : Err) (w₁ w₂ : World)
        → H.get_connection request w ≡ ok connection w₁
        → Cause connection w₁ reason e w₂
        → Written H V C connection condition_false reason (H.error_text e) w₂ w'
        → r ≡ failed e
        → Ends request w r w'
    unreported :
        (connection : ProviderConnection) (reason : ConditionReason) (e x : Err) (w₁ w₂ : World)
        → H.get_connection request w ≡ ok connection w₁
        → Cause connection w₁ reason e w₂
        → Refused H V C connection condition_false reason (H.error_text e) x w₂ w'
        → H.is_conflict x ≡ false
        → r ≡ retried x
        → Ends request w r w'
    unbound :
        (connection : ProviderConnection) (instance : DatabaseService) (x : Err) (w₁ w₂ : World)
        → H.get_connection request w ≡ ok connection w₁
        → HasSecret H V connection w₂
        → HasConfigMap H V connection instance w₂
        → Refused H V C
            (with_refs connection (secret_name connection) (config_map_name connection))
            condition_true
            connection_ready
            success_connection
            x
            w₂
            w'
        → Unbound x r
        → Ends request w r w'
    bound :
        (connection : ProviderConnection) (inventory : ProviderInventory)
        (instance : DatabaseService) (w₁ w₂ : World)
        → H.get_connection request w ≡ ok connection w₁
        → H.get_inventory connection.spec.inventory_ref w₁ ≡ ok inventory w₂
        → get_cluster_instance H inventory connection.spec.database_service_id ≡ inr instance
        → Bound connection instance w'
        → r ≡ done
        → Ends request w r w'

  pub abandon-Ends :
      (request : ObjectKey) (connection : ProviderConnection) (reason : ConditionReason) (e : Err)
      (w w₁ w₂ w' : World) (r : Reply Err)
      → H.get_connection request w ≡ ok connection w₁
      → Cause connection w₁ reason e w₂
      → abandon H connection reason e w₂ ≡ ok r w'
      → Ends request w r w'
  unfolding abandon
  abandon-Ends request connection reason e w w₁ w₂ w' r g c h =
      elim (ran (update_status H connection condition_false reason (H.error_text e) w₂)) [
        | answered t w₃ u ↦
            abandoned connection reason e w₁ w₂ g c
              (update_status-Written H V C connection condition_false reason (H.error_text e) w₂ w'
                (ground arith))
              (ground arith)
        | refused x w₃ u ↦
            let (z, n) =
              update_status-Refused H V C connection condition_false reason (H.error_text e) x w₂ w'
                (ground arith) in
            unreported connection reason e x w₁ w₂ g c z n (ground arith)
        | panicked w₃ u ↦ absurd (ground arith)
      ]
