-- ===== src/Host/Memory/Served/Stored.antt =====
-- The host in memory changes a stored instance only by a status update.
use provider_operator_exampl.Host.Memory.{
  clash, memory, Store, MemoryError, fetch, write, put_secret, put_config_map, keep_inventory,
  keep_connection, keep_instance, stored_secret, stored_config_map, key_test,
}
use provider_operator_exampl.Host.Memory.Served.{memory_server}
use provider_operator_exampl.System.Backing.{Sightings, KeepsInstances}
use provider_operator_exampl.Api.{ObjectKey, ProviderInstance, Secret, ConfigMap}
use provider_operator_exampl.Base.{
  false, true, err, ◌∙◌, if◌then◌else◌, ap, sym, Bool, inr, none, arith, refl, inl, Bool-cases,
  some, ok, world, ◌⊎◌, ◌≡◌, Option,
}
use provider_operator_exampl.Host.Server.{key_of}

module _ {A : Type 0} where
  fetch-ok : (o : Option A) (a : A) (w w' : Store) → fetch o w ≡ ok a w' → o ≡ some a
  fetch-ok none a w w' e = absurd (ground arith)
  fetch-ok (some b) a w w' e = ground arith

  fetch-instances : (o : Option A) (w : Store) → (world (fetch o w)).instances ≡ w.instances
  fetch-instances none w = refl
  fetch-instances (some b) w = refl

  write-instances :
      (b : Bool) (a : A) (f : A → Store → Store) (w : Store)
      → (f a w).instances ≡ w.instances
      → (world (if b then err clash w else ok a (f a w))).instances ≡ w.instances
  write-instances true a f w e = refl
  write-instances false a f w e = e

put_secret-instances :
    (s : Secret) (p : MemoryError ⊎ Secret) (w : Store)
    → (world (put_secret s p w)).instances ≡ w.instances
put_secret-instances s (inl e) w = refl
put_secret-instances s (inr new) w = refl

put_config_map-instances :
    (s : ConfigMap) (p : MemoryError ⊎ ConfigMap) (w : Store)
    → (world (put_config_map s p w)).instances ≡ w.instances
put_config_map-instances s (inl e) w = refl
put_config_map-instances s (inr new) w = refl

keep_instance-written :
    (x : ProviderInstance) (w : Store) (k : ObjectKey) (y : ProviderInstance)
    → (world (write x keep_instance w)).instances k ≡ some y
    → (w.instances k ≡ some y) ⊎ (y.status ≡ x.status)
keep_instance-written x w k y at = elim (Bool-cases w.busy) [
  | inl busy ↦ inl (rw busy at at)
  | inr free ↦ elim (Bool-cases (key_test k (key_of x.metadata))) [
    | inl same ↦ let now : some x ≡ some y = rw (free, same) at at in inr (ground arith)
    | inr other ↦ inl (rw (free, other) at at)
  ]
]

before :
    {at' at : ObjectKey → Option ProviderInstance} (j : ObjectKey) (y : ProviderInstance)
    → at' ≡ at
    → at' j ≡ some y
    → at j ≡ some y
before j y e stored = sym (ap (λ (t : ObjectKey → Option ProviderInstance). t j) e) ∙ stored

-- The host in memory has no cache.
abbrev pub stored_only : Sightings memory
stored_only w k y = w.instances k ≡ some y

pub memory-KeepsInstances : KeepsInstances memory memory_server stored_only
unfolding memory_server
memory-KeepsInstances = record {
  stored_seen = λ w k y at. at;
  instance_read = λ k x w w' e. fetch-ok (w.instances k) x w w' e;
  instance_written = keep_instance-written;
  get_inventory_keeps = λ k w j y at. before j y (fetch-instances (w.inventories k) w) at;
  get_connection_keeps = λ k w j y at. before j y (fetch-instances (w.connections k) w) at;
  get_instance_keeps = λ k w j y at. before j y (fetch-instances (w.instances k) w) at;
  get_secret_keeps = λ k w j y at. before j y (fetch-instances (w.secrets k) w) at;
  inventory_status_keeps =
      λ x w j y at. before j y (write-instances w.busy x keep_inventory w refl) at;
  connection_status_keeps =
      λ x w j y at. before j y (write-instances w.busy x keep_connection w refl) at;
  secret_keeps = λ s f w j y at. before j y (put_secret-instances s (f (stored_secret s w)) w) at;
  config_map_keeps =
      λ c f w j y at. before j y (put_config_map-instances c (f (stored_config_map c w)) w) at;
}

pub memory_server-instance_at :
    (w : Store) (k : ObjectKey) → memory_server.instance_at w k ≡ w.instances k
unfolding memory_server
memory_server-instance_at w k = refl
