-- ===== src/Host/Memory/Served.antt =====
-- The host in memory keeps the promises of the API server.
pub mod Stored
use provider_operator_exampl.Host.Server.{Server, key_of}
use provider_operator_exampl.Base.{ap, sym, refl, arith, ok, inl, ◌⊎◌, ◌≡◌, inr}
use provider_operator_exampl.Api.{ObjectKey, ProviderInstance, ConfigMap, Secret}
use provider_operator_exampl.Host.Memory.{
  memory, MemoryError, Store, write, put, put_self, put_secret, put_config_map, keep_inventory,
  keep_connection, keep_instance, stored_secret, stored_config_map, renamed,
}

write-ok :
    {A : Type 0} (x x' : A) (f : A → Store → Store) (w w' : Store)
    → write x f w ≡ ok x' w'
    → (x' ≡ x) × (w' ≡ f x w)
write-ok x x' f w w' h = ground arith

put_secret-ok :
    (s s' : Secret) (p : MemoryError ⊎ Secret) (w w' : Store)
    → put_secret s p w ≡ ok s' w'
    → (new : Secret) × (p ≡ inr new)
      × (s' ≡ record new { metadata = renamed s.metadata new.metadata })
      × (w' ≡ record w { secrets = put (key_of s.metadata) s' w.secrets })
put_secret-ok s s' (inl e) w w' h = absurd (ground arith)
put_secret-ok s s' (inr new) w w' h =
    let y = record new { metadata = renamed s.metadata new.metadata } in
    let same : y ≡ s' = ground arith in
    let end : record w { secrets = put (key_of s.metadata) y w.secrets } ≡ w' = cc in
    (new, refl, sym same, rw (← same) (sym end))

put_config_map-ok :
    (s s' : ConfigMap) (p : MemoryError ⊎ ConfigMap) (w w' : Store)
    → put_config_map s p w ≡ ok s' w'
    → (new : ConfigMap) × (p ≡ inr new)
      × (s' ≡ record new { metadata = renamed s.metadata new.metadata })
      × (w' ≡ record w { config_maps = put (key_of s.metadata) s' w.config_maps })
put_config_map-ok s s' (inl e) w w' h = absurd (ground arith)
put_config_map-ok s s' (inr new) w w' h =
    let y = record new { metadata = renamed s.metadata new.metadata } in
    let same : y ≡ s' = ground arith in
    let end : record w { config_maps = put (key_of s.metadata) y w.config_maps } ≡ w' = cc in
    (new, refl, sym same, rw (← same) (sym end))

pub memory_server : Server memory
memory_server = record {
  inventory_at = λ w. w.inventories;
  connection_at = λ w. w.connections;
  instance_at = λ w. w.instances;
  secret_at = λ w. w.secrets;
  config_map_at = λ w. w.config_maps;
  inventory_stored = λ x x' w w' h.
      let (_, e) = write-ok x x' keep_inventory w w' h in
      (x, rw e (put_self (key_of x.metadata) x w.inventories), refl);
  connection_stored = λ x x' w w' h.
      let (_, e) = write-ok x x' keep_connection w w' h in
      (x, rw e (put_self (key_of x.metadata) x w.connections), refl);
  instance_stored = λ x x' w w' h.
      let (same, e) = write-ok x x' keep_instance w w' h in
      (
        x,
        rw e (put_self (key_of x.metadata) x w.instances),
        refl,
        ap (λ (t : ProviderInstance). t.metadata) same,
        ap (λ (t : ProviderInstance). t.status) same,
        ap (λ (t : ProviderInstance). key_of t.metadata) same,
      );
  secret_stored = λ x x' f w w' h.
      let (new, made, same, e) = put_secret-ok x x' (f (stored_secret x w)) w w' h in
      (
        stored_secret x w,
        new,
        x',
        made,
        rw e (put_self (key_of x.metadata) x' w.secrets),
        ap (λ (t : Secret). t.contents) same,
        ap (λ (t : Secret). t.metadata.name) same,
      );
  config_map_stored = λ x x' f w w' h.
      let (new, made, same, e) = put_config_map-ok x x' (f (stored_config_map x w)) w w' h in
      (
        stored_config_map x w,
        new,
        x',
        made,
        rw e (put_self (key_of x.metadata) x' w.config_maps),
        ap (λ (t : ConfigMap). t.contents) same,
        ap (λ (t : ConfigMap). t.metadata.name) same,
      );
  config_map_keeps_secrets = λ x x' f w w' k h.
      let (_, _, _, e) = put_config_map-ok x x' (f (stored_config_map x w)) w w' h in rw e;
  status_keeps_secrets = λ x x' w w' k h. let (_, e) = write-ok x x' keep_connection w w' h in rw e;
  status_keeps_config_maps =
      λ x x' w w' k h. let (_, e) = write-ok x x' keep_connection w w' h in rw e;
}

pub memory_inventory_at :
    (w : Store) (k : ObjectKey) → memory_server.inventory_at w k ≡ w.inventories k
unfolding memory_server
memory_inventory_at w k = refl
