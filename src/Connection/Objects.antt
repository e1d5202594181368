-- ===== src/Connection/Objects.antt =====
-- The secret and the config map of a connection, and its status: what each write leaves stored.
use provider_operator_exampl.Base.{
  String, true, false, some, inr, ◌≡◌, ap, ◌∙◌, ok, err, ran, answered, refused, panicked, arith,
}
use provider_operator_exampl.Api.{
  ObjectKey, ConditionStatus, DatabaseService, ProviderConnection, ConnectionStatus, Secret,
  ConfigMap,
}
use provider_operator_exampl.Api.Reasons.{ConditionReason}
use provider_operator_exampl.Host.{Host}
use provider_operator_exampl.Host.Server.{Server, SetsConditions, Shows, key_of}
use provider_operator_exampl.Connection.{
  mutate_secret, mutate_config_map, create_or_update_secret, create_or_update_config_map,
  update_status,
}
use provider_operator_exampl.Connection.Build.{
  secret_contents, config_map_contents, secret_name, config_map_name, new_secret, new_config_map,
  connection_condition, with_conditions,
}

module _ (H : Host) (connection : ProviderConnection) where
  mutate_secret-contents :
      (old new : Secret) → mutate_secret H connection old ≡ inr new → new.contents ≡ secret_contents
  unfolding mutate_secret
  mutate_secret-contents old new h = ground arith

  mutate_config_map-contents :
      (instance : DatabaseService) (old new : ConfigMap)
      → mutate_config_map H connection instance old ≡ inr new
      → new.contents ≡ config_map_contents instance
  unfolding mutate_config_map
  mutate_config_map-contents instance old new h = ground arith

  -- The keys of the two objects: they lie in the namespace of the connection.
  abbrev pub secret_key : ObjectKey
  secret_key = record { namespace = connection.metadata.namespace; name = secret_name connection }

  abbrev pub config_map_key : ObjectKey
  config_map_key = record {
    namespace = connection.metadata.namespace;
    name = config_map_name connection;
  }

module _ (H : Host) (V : Server H) (connection : ProviderConnection) where
  open H use {World, Err}

  -- The secret of the connection is stored, with the credentials.
  pub record HasSecret (w : World) : Type 0 where
    pub object : Secret
    pub at_key : V.secret_at w (secret_key H connection) ≡ some object
    pub credentials : object.contents ≡ secret_contents

  pub record HasConfigMap (instance : DatabaseService) (w : World) : Type 0 where
    pub object : ConfigMap
    pub at_key : V.config_map_at w (config_map_key H connection) ≡ some object
    pub information : object.contents ≡ config_map_contents instance

  pub create_or_update_secret-HasSecret :
      (secret : Secret) (w w' : World)
      → create_or_update_secret H connection w ≡ ok secret w'
      → HasSecret w' × (secret.metadata.name ≡ secret_name connection)
  unfolding create_or_update_secret
  create_or_update_secret-HasSecret secret w w' h =
      let (old, new, y, made, at, same, name) =
        V.secret_stored (new_secret connection) secret (mutate_secret H connection) w w' h in
      (
        record {
          object = y;
          at_key = at;
          credentials = same ∙ mutate_secret-contents H connection old new made;
        },
        name,
      )

  pub create_or_update_config_map-HasConfigMap :
      (instance : DatabaseService) (cm : ConfigMap) (w w' : World)
      → create_or_update_config_map H connection instance w ≡ ok cm w'
      → HasConfigMap instance w' × (cm.metadata.name ≡ config_map_name connection)
  unfolding create_or_update_config_map
  create_or_update_config_map-HasConfigMap instance cm w w' h =
      let (old, new, y, made, at, same, name) =
        V.config_map_stored (new_config_map connection) cm (mutate_config_map H connection instance)
          w w' h in
      (
        record {
          object = y;
          at_key = at;
          information = same ∙ mutate_config_map-contents H connection instance old new made;
        },
        name,
      )

  pub config_map-HasSecret :
      (instance : DatabaseService) (cm : ConfigMap) (w w' : World)
      → create_or_update_config_map H connection instance w ≡ ok cm w'
      → HasSecret w
      → HasSecret w'
  unfolding create_or_update_config_map
  config_map-HasSecret instance cm w w' h s = record {
    object = s.object;
    at_key =
        V.config_map_keeps_secrets (new_config_map connection) cm
          (mutate_config_map H connection instance) w w' (secret_key H connection) h
        ∙ s.at_key;
    credentials = s.credentials;
  }

module _ (H : Host) (V : Server H) (C : SetsConditions H) where
  open H use {World, Err}

  -- The stored connection has the status that was written, with this condition.
  pub record Stored (connection : ProviderConnection) (status : ConditionStatus)
      (reason : ConditionReason) (message : String) (w : World) : Type 0 where
    pub object : ProviderConnection
    pub at_key : V.connection_at w (key_of connection.metadata) ≡ some object
    pub credentials_kept : object.status.credentials_ref ≡ connection.status.credentials_ref
    pub info_kept : object.status.connection_info_ref ≡ connection.status.connection_info_ref
    pub condition : Shows object.status.conditions (connection_condition status reason message)

  -- The update of the status that sets this condition was refused with the error.
  abbrev pub Refused :
      ProviderConnection → ConditionStatus → ConditionReason → String → Err → World → World → Type 0
  Refused connection status reason message e w w' =
      H.update_connection_status
        (with_conditions connection (
          H.set_status_condition w connection.status.conditions
            (connection_condition status reason message)))
        w
      ≡ err e w'

  -- The write was stored, and the objects of the connection were left alone; or another writer
  -- came first.
  pub data Written (connection : ProviderConnection) (status : ConditionStatus)
      (reason : ConditionReason) (message : String) (w w' : World) : Type 0 where
    stored :
        Stored connection status reason message w'
        → ((k : ObjectKey) → V.secret_at w' k ≡ V.secret_at w k)
        → ((k : ObjectKey) → V.config_map_at w' k ≡ V.config_map_at w k)
        → Written connection status reason message w w'
    conflict :
        (e : Err)
        → Refused connection status reason message e w w'
        → H.is_conflict e ≡ true
        → Written connection status reason message w w'

  pub update_status-Written :
      (connection : ProviderConnection) (status : ConditionStatus) (reason : ConditionReason)
      (message : String) (w w' : World)
      → update_status H connection status reason message w ≡ ok tt w'
      → Written connection status reason message w w'
  unfolding update_status
  update_status-Written connection status reason message w w' h =
      let condition = connection_condition status reason message in
      let conditions = H.set_status_condition w connection.status.conditions condition in
      let x = with_conditions connection conditions in
      elim (ran (H.update_connection_status x w)) [
        | answered x' w₁ e ↦
            let there : H.update_connection_status x w ≡ ok x' w' = ground arith in
            let (y, at, same) = V.connection_stored x x' w w' there in
            stored
              (record {
                object = y;
                at_key = at;
                credentials_kept = ap (λ (t : ConnectionStatus). t.credentials_ref) same;
                info_kept = ap (λ (t : ConnectionStatus). t.connection_info_ref) same;
                condition = rw same (C.shows w connection.status.conditions condition);
              })
              (λ k. V.status_keeps_secrets x x' w w' k there)
              (λ k. V.status_keeps_config_maps x x' w w' k there)
        | refused x' w₁ e ↦ conflict x' (ground arith) (ground arith)
        | panicked w₁ e ↦ absurd (ground arith)
      ]

  pub update_status-Refused :
      (connection : ProviderConnection) (status : ConditionStatus) (reason : ConditionReason)
      (message : String) (e : Err) (w w' : World)
      → update_status H connection status reason message w ≡ err e w'
      → Refused connection status reason message e w w' × (H.is_conflict e ≡ false)
  unfolding update_status
  update_status-Refused connection status reason message e w w' h = (ground arith, ground arith)
