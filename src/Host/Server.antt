-- ===== src/Host/Server.antt =====
-- What the code relies on in the API server: the objects that it stores, seen by observation
-- functions, and the documented effect of each write on them.
use provider_operator_exampl.Base.{
  String, ◌==◌, if◌then◌else◌, Option, none, some, List, [], ◌∷◌, ◌⊎◌, inr, ◌≡◌, ◌≢◌, ok,
}
use provider_operator_exampl.Api.{
  ObjectKey, ObjectMeta, Condition, ProviderInventory, ProviderConnection, ProviderInstance, Secret,
  ConfigMap,
}
use provider_operator_exampl.Host.{Host}

-- client.ObjectKeyFromObject
abbrev pub key_of : ObjectMeta → ObjectKey
key_of m = record { namespace = m.namespace; name = m.name }

-- The condition of a type; a list holds a type once.
unfoldable pub find_condition : String → List Condition → Option Condition
find_condition t [] = none
find_condition t (c ∷ cs) = if c.type == t then some c else find_condition t cs

-- A condition of the given type stands with the given status, reason and message.
pub record Shows (cs : List Condition) (c : Condition) : Type 0 where
  pub shown : Condition
  pub found : find_condition c.type cs ≡ some shown
  pub same_status : shown.status ≡ c.status
  pub same_reason : shown.reason ≡ c.reason
  pub same_message : shown.message ≡ c.message

-- `SetStatusCondition` sets the condition of its type and leaves the other types alone.
pub record SetsConditions (H : Host) : Type 0 where
  pub shows :
      (w : H.World) (cs : List Condition) (c : Condition) → Shows (H.set_status_condition w cs c) c
  pub keeps :
      (w : H.World) (cs : List Condition) (c : Condition) (t : String)
      → t ≢ c.type
      → find_condition t (H.set_status_condition w cs c) ≡ find_condition t cs

-- What the server stores, and what the writes that succeed do to it.
pub record Server (H : Host) : Type 0 where
  pub inventory_at : H.World → ObjectKey → Option ProviderInventory
  pub connection_at : H.World → ObjectKey → Option ProviderConnection
  pub instance_at : H.World → ObjectKey → Option ProviderInstance
  pub secret_at : H.World → ObjectKey → Option Secret
  pub config_map_at : H.World → ObjectKey → Option ConfigMap
  -- a status update that succeeds stores the status
  pub inventory_stored :
      (x x' : ProviderInventory) (w w' : H.World)
      → H.update_inventory_status x w ≡ ok x' w'
      → (y : ProviderInventory) × (inventory_at w' (key_of x.metadata) ≡ some y)
        × (y.status ≡ x.status)
  pub connection_stored :
      (x x' : ProviderConnection) (w w' : H.World)
      → H.update_connection_status x w ≡ ok x' w'
      → (y : ProviderConnection) × (connection_at w' (key_of x.metadata) ≡ some y)
        × (y.status ≡ x.status)
  pub instance_stored :
      (x x' : ProviderInstance) (w w' : H.World)
      → H.update_instance_status x w ≡ ok x' w'
      → (y : ProviderInstance) × (instance_at w' (key_of x.metadata) ≡ some y)
        × (y.status ≡ x.status)
        × (x'.metadata ≡ y.metadata)
        × (x'.status ≡ x.status)
        × (key_of x'.metadata ≡ key_of x.metadata)
  -- `CreateOrUpdate` stores under the key that it was given what `mutate` made of an object there
  pub secret_stored :
      (x x' : Secret) (f : Secret → H.Err ⊎ Secret) (w w' : H.World)
      → H.create_or_update_secret x f w ≡ ok x' w'
      → (old new y : Secret) × (f old ≡ inr new)
        × (secret_at w' (key_of x.metadata) ≡ some y)
        × (y.contents ≡ new.contents)
        × (x'.metadata.name ≡ x.metadata.name)
  pub config_map_stored :
      (x x' : ConfigMap) (f : ConfigMap → H.Err ⊎ ConfigMap) (w w' : H.World)
      → H.create_or_update_config_map x f w ≡ ok x' w'
      → (old new y : ConfigMap) × (f old ≡ inr new)
        × (config_map_at w' (key_of x.metadata) ≡ some y)
        × (y.contents ≡ new.contents)
        × (x'.metadata.name ≡ x.metadata.name)
  -- writes of one kind leave the objects of another kind alone
  pub config_map_keeps_secrets :
      (x x' : ConfigMap) (f : ConfigMap → H.Err ⊎ ConfigMap) (w w' : H.World) (k : ObjectKey)
      → H.create_or_update_config_map x f w ≡ ok x' w'
      → secret_at w' k ≡ secret_at w k
  pub status_keeps_secrets :
      (x x' : ProviderConnection) (w w' : H.World) (k : ObjectKey)
      → H.update_connection_status x w ≡ ok x' w'
      → secret_at w' k ≡ secret_at w k
  pub status_keeps_config_maps :
      (x x' : ProviderConnection) (w w' : H.World) (k : ObjectKey)
      → H.update_connection_status x w ≡ ok x' w'
      → config_map_at w' k ≡ config_map_at w k
