-- ===== src/Connection/Binding.antt =====
-- A reconciliation of a connection in which every call succeeds.
use provider_operator_exampl.Base.{◌≡◌, ◌∙◌, ok, arith}
use provider_operator_exampl.Api.{
  ObjectKey, ProviderConnection, ProviderInventory, DatabaseService, Secret, ConfigMap,
  condition_true,
}
use provider_operator_exampl.Api.Reasons.{connection_ready, success_connection}
use provider_operator_exampl.Host.{Host, done}
use provider_operator_exampl.Host.Server.{Server, SetsConditions}
use provider_operator_exampl.Service.{ProviderService}
use provider_operator_exampl.Inventory.{secret_selector}
use provider_operator_exampl.Connection.{
  reconcile, bind_connection, create_or_update_secret, create_or_update_config_map, update_status,
}
use provider_operator_exampl.Connection.Build.{
  secret_name, config_map_name, with_refs, with_conditions, connection_condition,
}
use provider_operator_exampl.Connection.Objects.{
  stored, conflict, config_map-HasSecret, create_or_update_config_map-HasConfigMap,
  create_or_update_secret-HasSecret, update_status-Written,
}
use provider_operator_exampl.Connection.Lookup.{get_cluster_instance_iff, IsSynced, IsFirst}
use provider_operator_exampl.Connection.Ends.{Bound}

module _ (H : Host) (V : Server H) (C : SetsConditions H) (S : ProviderService H) where
  open H use {World, Err}

  -- The connection with the names of its two objects.
  abbrev pub bound_to : ProviderConnection → ProviderConnection
  bound_to connection = with_refs connection (secret_name connection) (config_map_name connection)

  update_status-done :
      (connection y : ProviderConnection) (w w₁ : World)
      → H.update_connection_status
          (with_conditions connection (
            H.set_status_condition w connection.status.conditions
              (connection_condition condition_true connection_ready success_connection)))
          w
        ≡ ok y w₁
      → update_status H connection condition_true connection_ready success_connection w ≡ ok tt w₁
  unfolding update_status
  update_status-done connection y w w₁ u = ground arith

  bind_connection-done :
      (connection : ProviderConnection) (secret : Secret) (cm : ConfigMap) (w w₁ : World)
      → secret.metadata.name ≡ secret_name connection
      → cm.metadata.name ≡ config_map_name connection
      → update_status H (bound_to connection) condition_true connection_ready success_connection w
        ≡ ok tt w₁
      → bind_connection H connection secret cm w ≡ ok done w₁
  unfolding bind_connection
  bind_connection-done connection secret cm w w₁ sn mn u = rw (sn, mn, u)

  -- Where the inventory is synced and lists the database service, and the provider, the writes of
  -- the two objects and the update of the status succeed, the reconciliation ends well, with both
  -- objects stored and a stored status that is ready and names them.
  pub reconcile-Bound :
      (request : ObjectKey) (connection : ProviderConnection) (inventory : ProviderInventory)
      (instance : DatabaseService) (cloud : S.Cloud) (secret : Secret) (cm : ConfigMap)
      (w w₁ w₂ w₃ w₄ w₅ : World)
      → H.get_connection request w ≡ ok connection w₁
      → H.get_inventory connection.spec.inventory_ref w₁ ≡ ok inventory w₂
      → IsSynced inventory.status.conditions
      → IsFirst connection.spec.database_service_id inventory.status.database_services instance
      → S.create_cloud_service (secret_selector inventory) w₂ ≡ ok cloud w₃
      → create_or_update_secret H connection w₃ ≡ ok secret w₄
      → create_or_update_config_map H connection instance w₄ ≡ ok cm w₅
      → ((x : ProviderConnection)
          → (y : ProviderConnection) × (w₆ : World) × (H.update_connection_status x w₅ ≡ ok y w₆))
      → (w₆ : World) × (reconcile H S request w ≡ ok done w₆) × Bound H V C S connection instance w₆
  unfolding reconcile
  reconcile-Bound request connection inventory instance cloud secret cm w w₁ w₂ w₃ w₄ w₅ g i synced
        first made a b writes =
      let found =
        (get_cluster_instance_iff H inventory connection.spec.database_service_id instance).1
          (synced, first) in
      let (s, sn) = create_or_update_secret-HasSecret H V connection secret w₃ w₄ a in
      let (m, mn) = create_or_update_config_map-HasConfigMap H V connection instance cm w₄ w₅ b in
      let s' = config_map-HasSecret H V connection instance cm w₄ w₅ b s in
      let (y, w₆, u) = writes (
        with_conditions (bound_to connection) (
          H.set_status_condition w₅ (bound_to connection).status.conditions
            (connection_condition condition_true connection_ready success_connection))) in
      let updated = update_status-done (bound_to connection) y w₅ w₆ u in
      let last = bind_connection-done connection secret cm w₅ w₆ sn mn updated in
      (
        w₆,
        ground arith,
        elim (update_status-Written H V C (bound_to connection) condition_true connection_ready
            success_connection w₅ w₆ updated) [
              | stored at secrets config_maps ↦ record {
                status = at;
                secret = record {
                  object = s'.object;
                  at_key = secrets _ ∙ s'.at_key;
                  credentials = s'.credentials;
                };
                config_map = record {
                  object = m.object;
                  at_key = config_maps _ ∙ m.at_key;
                  information = m.information;
                };
              }
              | conflict e z k ↦ absurd (ground arith)
            ],
      )
