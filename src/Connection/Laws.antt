-- ===== src/Connection/Laws.antt =====
-- What a reconciliation of a connection leaves behind, on every way through it.
use provider_operator_exampl.Base.{
  refl, Bool-cases, inl, inr, ◌≡◌, ok, ran, answered, refused, panicked, arith, ◌∙◌, ◌⊎◌,
}
use provider_operator_exampl.Api.{
  ConfigMap, Secret, ObjectKey, condition_true, DatabaseService, ProviderInventory,
  ProviderConnection,
}
use provider_operator_exampl.Api.Reasons.{
  inventory_not_found, connection_not_ready, backend_error, connection_ready, success_connection,
}
use provider_operator_exampl.Connection.Ends.{
  Ends, bound, unbound, overtaken, unwritten, absent, unread, unread_inventory, abandon-Ends,
  no_cloud, no_secret, no_config_map, no_inventory, no_instance,
}
use provider_operator_exampl.Host.{Host, Reply}
use provider_operator_exampl.Host.Server.{Server, SetsConditions}
use provider_operator_exampl.Service.{ProviderService}
use provider_operator_exampl.Inventory.{secret_selector}
use provider_operator_exampl.Connection.{
  reconcile, choose, bind_connection, provision, get_cluster_instance, create_or_update_secret,
  create_or_update_config_map, update_status,
}
use provider_operator_exampl.Connection.Build.{secret_name, config_map_name, with_refs}
use provider_operator_exampl.Connection.Objects.{
  stored, conflict, config_map-HasSecret, create_or_update_config_map-HasConfigMap,
  create_or_update_secret-HasSecret, HasSecret, HasConfigMap, update_status-Written,
  update_status-Refused,
}

module _ (H : Host) (V : Server H) (C : SetsConditions H) (S : ProviderService H) where
  open H use {World, Err}

  bind_connection-Ends :
      (request : ObjectKey) (connection : ProviderConnection) (inventory : ProviderInventory)
      (instance : DatabaseService) (secret : Secret) (cm : ConfigMap) (w w₁ w₂ w₃ w' : World)
      (r : Reply Err)
      → H.get_connection request w ≡ ok connection w₁
      → H.get_inventory connection.spec.inventory_ref w₁ ≡ ok inventory w₂
      → get_cluster_instance H inventory connection.spec.database_service_id ≡ inr instance
      → HasSecret H V connection w₃
      → HasConfigMap H V connection instance w₃
      → secret.metadata.name ≡ secret_name connection
      → cm.metadata.name ≡ config_map_name connection
      → bind_connection H connection secret cm w₃ ≡ ok r w'
      → Ends H V C S request w r w'
  unfolding bind_connection
  bind_connection-Ends request connection inventory instance secret cm w w₁ w₂ w₃ w' r g i c s m sn
        mn h =
      let ready = with_refs connection (secret_name connection) (config_map_name connection) in
      let h' : bind_connection H (connection) secret cm w₃ ≡ ok r w' = h in
      elim (ran (
        update_status H (with_refs connection secret.metadata.name cm.metadata.name) condition_true
          connection_ready success_connection w₃)) [
            | answered t w₄ u ↦
                let u' : update_status H ready condition_true connection_ready success_connection w₃
                    ≡ ok tt w' =
                  ground arith in
                elim (update_status-Written H V C ready condition_true connection_ready
                  success_connection w₃ w' u') [
                    | stored at secrets config_maps ↦
                        bound connection inventory instance w₁ w₂ g i c
                          (record {
                            status = at;
                            secret = record {
                              object = s.object;
                              at_key = secrets _ ∙ s.at_key;
                              credentials = s.credentials;
                            };
                            config_map = record {
                              object = m.object;
                              at_key = config_maps _ ∙ m.at_key;
                              information = m.information;
                            };
                          })
                          (ground arith)
                    | conflict e z k ↦
                        unbound connection instance e w₁ w₃ g s m z (overtaken k (ground arith))
                  ]
            | refused x w₄ u ↦
                let (z, n) =
                  update_status-Refused H V C ready condition_true connection_ready
                    success_connection x w₃ w' (ground arith) in
                unbound connection instance x w₁ w₃ g s m z (unwritten n (ground arith))
            | panicked w₄ u ↦ absurd (ground arith)
          ]

  provision-Ends :
      (request : ObjectKey) (connection : ProviderConnection) (inventory : ProviderInventory)
      (instance : DatabaseService) (w w₁ w₂ w' : World) (r : Reply Err)
      → H.get_connection request w ≡ ok connection w₁
      → H.get_inventory connection.spec.inventory_ref w₁ ≡ ok inventory w₂
      → get_cluster_instance H inventory connection.spec.database_service_id ≡ inr instance
      → provision H S connection inventory instance w₂ ≡ ok r w'
      → Ends H V C S request w r w'
  provision-Ends request connection inventory instance w w₁ w₂ w' r g i c h =
      elim (ran (S.create_cloud_service (secret_selector inventory) w₂)) [
        | refused e w₃ u ↦
            abandon-Ends H V C S request connection backend_error e w w₁ w₃ w' r g
              (no_cloud inventory e w₂ w₃ i u) (ground arith)
        | panicked w₃ u ↦ absurd (ground arith)
        | answered cloud w₃ u ↦ elim (ran (create_or_update_secret H connection w₃)) [
          | refused e w₄ v ↦
              abandon-Ends H V C S request connection backend_error e w w₁ w₄ w' r g
                (no_secret inventory cloud e w₂ w₃ w₄ i u v) (ground arith)
          | panicked w₄ v ↦ absurd (ground arith)
          | answered secret w₄ v ↦
              elim (ran (create_or_update_config_map H connection instance w₄)) [
                | refused e w₅ x ↦
                    abandon-Ends H V C S request connection backend_error e w w₁ w₅ w' r g
                      (no_config_map inventory instance e w₂ w₄ w₅ i c
                        (create_or_update_secret-HasSecret H V connection secret w₃ w₄ v).0 x)
                      (ground arith)
                | panicked w₅ x ↦ absurd (ground arith)
                | answered cm w₅ x ↦
                    let (s, sn) = create_or_update_secret-HasSecret H V connection secret w₃ w₄ v in
                    let (m, mn) =
                      create_or_update_config_map-HasConfigMap H V connection instance cm w₄ w₅ x in
                    bind_connection-Ends request connection inventory instance secret cm w w₁ w₂ w₅
                      w' r g i c (config_map-HasSecret H V connection instance cm w₄ w₅ x s) m sn mn
                      (ground arith)
              ]
        ]
      ]

  choose-Ends :
      (request : ObjectKey) (connection : ProviderConnection) (inventory : ProviderInventory)
      (p : Err ⊎ DatabaseService) (w w₁ w₂ w' : World) (r : Reply Err)
      → H.get_connection request w ≡ ok connection w₁
      → H.get_inventory connection.spec.inventory_ref w₁ ≡ ok inventory w₂
      → get_cluster_instance H inventory connection.spec.database_service_id ≡ p
      → choose H S connection inventory p w₂ ≡ ok r w'
      → Ends H V C S request w r w'
  choose-Ends request connection inventory (inl e) w w₁ w₂ w' r g i c h =
      abandon-Ends H V C S request connection connection_not_ready e w w₁ w₂ w' r g
        (no_instance inventory e w₂ i c) h
  choose-Ends request connection inventory (inr instance) w w₁ w₂ w' r g i c h =
      provision-Ends request connection inventory instance w w₁ w₂ w' r g i c h

  -- A reconciliation of a connection that returns has ended in one of these ways: the connection
  -- is gone; it or its inventory could not be read; a step failed, and the error is returned and
  -- is written in the stored condition with the reason of that step (or the write met a conflict);
  -- a status update was refused, which asks for another round unless it is the last and meets a
  -- conflict; or the connection is ready, its status names the secret and the config map, and both
  -- are stored with their contents.
  pub connection_reconcile-Ends :
      (request : ObjectKey) (w w' : World) (r : Reply Err)
      → reconcile H S request w ≡ ok r w'
      → Ends H V C S request w r w'
  unfolding reconcile
  connection_reconcile-Ends request w w' r h = elim (ran (H.get_connection request w)) [
    | panicked w₁ u ↦ absurd (ground arith)
    | refused e w₁ u ↦ elim (Bool-cases (H.is_not_found e)) [
      | inl n ↦ absent e (ground arith) n (ground arith)
      | inr n ↦ unread e (ground arith) n (ground arith)
    ]
    | answered connection w₁ u ↦ elim (ran (H.get_inventory connection.spec.inventory_ref w₁)) [
      | panicked w₂ v ↦ absurd (ground arith)
      | refused e w₂ v ↦ elim (Bool-cases (H.is_not_found e)) [
        | inl n ↦
            abandon-Ends H V C S request connection inventory_not_found e w w₁ w₂ w' r u
              (no_inventory e w₂ v n) (ground arith)
        | inr n ↦ unread_inventory connection e w₁ u (ground arith) n (ground arith)
      ]
      | answered inventory w₂ v ↦
          choose-Ends request connection inventory
            (get_cluster_instance H inventory connection.spec.database_service_id) w w₁ w₂ w' r u v
            refl (ground arith)
    ]
  ]
