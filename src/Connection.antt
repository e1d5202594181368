-- ===== src/Connection.antt =====
-- ProviderConnectionReconciler, controllers/dbaas/providerconnection_controller.go. Log lines are
-- left out.
pub mod Build
pub mod Lookup
pub mod Objects
pub mod Ends
pub mod Laws
pub mod Replies
pub mod Binding
use provider_operator_exampl.Base.{
  List, [], ◌∷◌, String, ◌<>◌, Bool, true, false, ◌&&◌, ◌==◌, if◌then◌else◌, Option, none, some,
  ◌⊎◌, inl, inr, M, ok, err, handle, return,
}
use provider_operator_exampl.Base.Dict.{Dict, insert}
use provider_operator_exampl.Api.{
  ObjectKey, ObjectMeta, ConditionStatus, condition_true, condition_false, condition_unknown,
  Condition, DatabaseService, ProviderInventory, ProviderConnection, Secret, ConfigMap,
}
use provider_operator_exampl.Api.Reasons.{
  ConditionReason, inventory_not_found, connection_not_ready, backend_error, connection_ready,
  reason_text, success_connection, inventory_condition_type_ready, connection_condition_ready_type,
  database_type, database_provider, database_host, database_port, database_name, database_ssl_mode,
}
use provider_operator_exampl.Host.{Host, Reply, done, failed, retried}
use provider_operator_exampl.Service.{ProviderService}
use provider_operator_exampl.Inventory.{secret_selector}
use provider_operator_exampl.Connection.Build.{
  is_true, find_synced, find_service, build_labels, secret_contents, config_map_contents,
  secret_name, config_map_name, new_secret, new_config_map, connection_condition, with_conditions,
  with_refs,
}

module _ (H : Host) where
  open H use {World, Err}

  unfoldable pub get_cluster_instance : ProviderInventory → String → Err ⊎ DatabaseService
  get_cluster_instance inventory id = elim (find_synced inventory.status.conditions) [
    | none ↦ inl (H.new_error "ProviderInventory is not yet in-synced, or is invalid")
    | some _ ↦ elim (find_service id inventory.status.database_services) [
      | none ↦ inl (H.new_error ("instance with id:" <> (id <> " not found in ProviderInventory")))
      | some s ↦ inr s
    ]
  ]

  -- The callback of createOrUpdateSecret.
  unfoldable pub mutate_secret : ProviderConnection → Secret → Err ⊎ Secret
  mutate_secret connection secret =
      let labels = insert H.type_label_key H.type_label_value (build_labels connection) in
      elim (H.set_controller_reference connection (record secret.metadata { labels = labels })) [
        | inl e ↦ inl e
        | inr metadata ↦ inr (record {
          kind = "Secret";
          metadata = metadata;
          type = "Opaque";
          contents = secret_contents;
        })
      ]

  -- The callback of createOrUpdateConfigMap.
  unfoldable pub mutate_config_map :
      ProviderConnection → DatabaseService → ConfigMap → Err ⊎ ConfigMap
  mutate_config_map connection instance cm =
      let labels = build_labels connection in
      elim (H.set_controller_reference connection (record cm.metadata { labels = labels })) [
        | inl e ↦ inl e
        | inr metadata ↦ inr (record {
          kind = "ConfigMap";
          metadata = metadata;
          contents = config_map_contents instance;
        })
      ]

  unfoldable pub create_or_update_secret : ProviderConnection → M World Err Secret
  create_or_update_secret connection =
      H.create_or_update_secret (new_secret connection) (mutate_secret connection)

  unfoldable pub create_or_update_config_map :
      ProviderConnection → DatabaseService → M World Err ConfigMap
  create_or_update_config_map connection instance =
      H.create_or_update_config_map (new_config_map connection)
        (mutate_config_map connection instance)

  unfoldable pub update_status :
      ProviderConnection → ConditionStatus → ConditionReason → String → M World Err (Unit {0})
  update_status connection status reason message w =
      let condition = connection_condition status reason message in
      let conditions = H.set_status_condition w connection.status.conditions condition in
      handle (H.update_connection_status (with_conditions connection conditions))
        (λ e w'. if H.is_conflict e then ok tt w' else err e w') (λ _ w'. ok tt w') w

  -- How every failed step ends: the condition is set, and the error of the step is returned, or
  -- that of the status update with a request to retry.
  unfoldable pub abandon : ProviderConnection → ConditionReason → Err → M World Err (Reply Err)
  unfolding update_status
  abandon connection reason e =
      handle (update_status connection condition_false reason (H.error_text e))
        (λ x. return (retried x)) (λ _. return (failed e))

  -- The last step.
  unfoldable pub bind_connection : ProviderConnection → Secret → ConfigMap → M World Err (Reply Err)
  unfolding update_status
  bind_connection connection secret cm =
      handle
        (update_status (with_refs connection secret.metadata.name cm.metadata.name) condition_true
          connection_ready success_connection)
        (λ x. return (retried x)) (λ _. return done)

module _ (H : Host) (S : ProviderService H) where
  open H use {World, Err}

  -- From the creation of the API client on.
  abbrev pub provision :
      ProviderConnection → ProviderInventory → DatabaseService → M World Err (Reply Err)
  provision connection inventory instance =
      handle (S.create_cloud_service (secret_selector inventory))
        (abandon H connection backend_error)
        λ cloud.
          handle (create_or_update_secret H connection) (abandon H connection backend_error)
            λ secret.
              handle (create_or_update_config_map H connection instance)
                (abandon H connection backend_error) (bind_connection H connection secret)

  abbrev pub choose :
      ProviderConnection → ProviderInventory → Err ⊎ DatabaseService → M World Err (Reply Err)
  choose connection inventory (inl e) = abandon H connection connection_not_ready e
  choose connection inventory (inr instance) = provision connection inventory instance

  unfoldable pub reconcile : ObjectKey → M World Err (Reply Err)
  reconcile request =
      handle (H.get_connection request)
        (λ e w. if H.is_not_found e then ok done w else ok (failed e) w)
        λ connection.
          handle (H.get_inventory connection.spec.inventory_ref)
            (λ e w.
              if H.is_not_found e
              then abandon H connection inventory_not_found e w
              else ok (failed e) w)
            λ inventory.
              choose connection inventory
                (get_cluster_instance H inventory connection.spec.database_service_id)
