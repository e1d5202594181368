-- ===== src/System/Backing.antt =====
-- Which identifiers the instances carry, and what the API server, its cache and the users do to
-- them.
pub mod Amid
pub mod Calls
pub mod Leaves
pub mod Quiet
pub mod Creations
pub mod Instances
pub mod Invariant
use provider_operator_exampl.Host.{Host}
use provider_operator_exampl.Host.Server.{Server}
use provider_operator_exampl.FakeClusters.Steps.Growth.{IsKnown}
use provider_operator_exampl.Base.{ok, some, world, ◌⊎◌, ◌≡◌, String, M}
use provider_operator_exampl.Api.{
  ConfigMap, Secret, ProviderConnection, ProviderInventory, ProviderInstance, ObjectKey,
}
use provider_operator_exampl.FakeClusters.{new_fake_clusters, FakeClusters}
use provider_operator_exampl.FakeClusters.Steps.{Reach, Step}

-- The versions of instances that can still be read at a key: what is stored, and what a cache has
-- kept of former versions.
abbrev pub Sightings : Host → Type 1
Sightings H = H.World → ObjectKey → ProviderInstance → Type 0

module _ (H : Host) (V : Server H) (Seen : Sightings H) where
  -- After the call no version can be read that could not before.
  abbrev pub KeepsSeen : {A : Type 0} → M H.World H.Err A → Type 0
  KeepsSeen m =
      (w : H.World) (k : ObjectKey) (y : ProviderInstance) → Seen (world (m w)) k y → Seen w k y

  -- What the API server and the cache promise of instances: reads give a version that is stored or
  -- was, only a status update of an instance makes a new one, and where it does, also where it then
  -- fails, the status is that of the update.
  pub record KeepsInstances : Type 0 where
    pub stored_seen :
        (w : H.World) (k : ObjectKey) (y : ProviderInstance)
        → V.instance_at w k ≡ some y
        → Seen w k y
    pub instance_read :
        (k : ObjectKey) (x : ProviderInstance) (w w' : H.World)
        → H.get_instance k w ≡ ok x w'
        → Seen w k x
    pub instance_written :
        (x : ProviderInstance) (w : H.World) (k : ObjectKey) (y : ProviderInstance)
        → Seen (world (H.update_instance_status x w)) k y
        → (Seen w k y) ⊎ (y.status ≡ x.status)
    pub get_inventory_keeps : (k : ObjectKey) → KeepsSeen (H.get_inventory k)
    pub get_connection_keeps : (k : ObjectKey) → KeepsSeen (H.get_connection k)
    pub get_instance_keeps : (k : ObjectKey) → KeepsSeen (H.get_instance k)
    pub get_secret_keeps : (k : ObjectKey) → KeepsSeen (H.get_secret k)
    pub inventory_status_keeps : (x : ProviderInventory) → KeepsSeen (H.update_inventory_status x)
    pub connection_status_keeps :
        (x : ProviderConnection) → KeepsSeen (H.update_connection_status x)
    pub secret_keeps :
        (x : Secret) (f : Secret → H.Err ⊎ Secret) → KeepsSeen (H.create_or_update_secret x f)
    pub config_map_keeps :
        (x : ConfigMap) (f : ConfigMap → H.Err ⊎ ConfigMap)
        → KeepsSeen (H.create_or_update_config_map x f)

  -- An identifier that is blank, or that the cloud knows.
  abbrev pub IsBacked : FakeClusters → String → Type 0
  IsBacked f id = (id ≡ "") ⊎ IsKnown f id

  abbrev pub AllBacked : H.World → FakeClusters → Type 0
  AllBacked w f =
      (k : ObjectKey) (y : ProviderInstance) → Seen w k y → IsBacked f y.status.instance_id

  -- Users create instances without an identifier, and change and delete them, but leave the
  -- identifiers to the controller; a cache takes up and drops versions.
  abbrev pub KeepsIds : H.World → H.World → Type 0
  KeepsIds w w' =
      (k : ObjectKey) (y : ProviderInstance)
      → Seen w' k y
      → (y.status.instance_id ≡ "")
        ⊎ ((x : ProviderInstance) × (Seen w k x) × (x.status.instance_id ≡ y.status.instance_id))

  -- Every identifier that is backed by the one cloud is backed by the other.
  abbrev pub Grows : FakeClusters → FakeClusters → Type 0
  Grows f g = (id : String) → IsBacked f id → IsBacked g id

  module _ (Good : H.World → Type 0) where
    module _ (f₀ : FakeClusters) where
      -- A good world of the host beside a cloud that is reached from the start, and from a state of
      -- before, in which the identifiers of all instances are backed.
      abbrev pub Sound : H.World × FakeClusters → Type 0
      Sound (w, f) = Good w × (Reach new_fake_clusters f × Reach f₀ f) × AllBacked w f

      -- The same, with the cloud as it is.
      abbrev pub SoundAt : FakeClusters → H.World × FakeClusters → Type 0
      SoundAt g (w, f) = Sound (w, f) × (f ≡ g)

    -- What happens beside a reconciliation: a step of the clients and goroutines of the cloud, or
    -- an edit. The calls by which the other controllers read and write objects of other kinds are
    -- such edits; the requests for instances are taken by one worker.
    pub data OtherStep (s : H.World × FakeClusters) : H.World × FakeClusters → Type 0 where
      cloud_step : {f : FakeClusters} → Step s.1 f → OtherStep s (s.0, f)
      edits : (w : H.World) → Good w → KeepsIds s.0 w → OtherStep s (w, s.1)

    pub data OtherSteps (s : H.World × FakeClusters) : H.World × FakeClusters → Type 0 where
      none_yet : OtherSteps s s
      and_then : {t u : H.World × FakeClusters} → OtherSteps s t → OtherStep t u → OtherSteps s u

    -- What happens before a call of a reconciliation, whatever the state is then.
    pub record Move : Type 0 where
      pub go : H.World × FakeClusters → H.World × FakeClusters
      pub by_steps : (s : H.World × FakeClusters) → OtherSteps s (go s)
