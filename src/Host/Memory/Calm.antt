-- ===== src/Host/Memory/Calm.antt =====
-- No call of the host in memory panics.
use provider_operator_exampl.Base.{ok, err, Option, none, some, ◌⊎◌, inl, inr}
use provider_operator_exampl.Host.Memory.{
  clash, keep_inventory, keep_connection, keep_instance, stored_secret, stored_config_map, memory,
  Store, MemoryError, fetch, write, put_secret, put_config_map,
}
use provider_operator_exampl.Service.Calm.{either, Any, Calmly, CalmHost}
use provider_operator_exampl.Api.{Secret, ConfigMap}

abbrev pub AnyStore : Store → Type 0
AnyStore _ = Unit

module _ {A : Type 0} where
  fetch-Calmly : (o : Option A) (w : Store) → Calmly AnyStore Any (fetch o w)
  fetch-Calmly none w = tt
  fetch-Calmly (some a) w = (tt, tt)

  write-Calmly : (a : A) (f : A → Store → Store) (w : Store) → Calmly AnyStore Any (write a f w)
  write-Calmly a f w =
      either AnyStore (Calmly AnyStore Any) w.busy (err clash w) (ok a (f a w)) tt (tt, tt)

put_secret-Calmly :
    (s : Secret) (p : MemoryError ⊎ Secret) (w : Store) → Calmly AnyStore Any (put_secret s p w)
put_secret-Calmly s (inl e) w = tt
put_secret-Calmly s (inr new) w = (tt, tt)

put_config_map-Calmly :
    (c : ConfigMap) (p : MemoryError ⊎ ConfigMap) (w : Store)
    → Calmly AnyStore Any (put_config_map c p w)
put_config_map-Calmly c (inl e) w = tt
put_config_map-Calmly c (inr new) w = (tt, tt)

pub memory-CalmHost : CalmHost memory AnyStore
memory-CalmHost = record {
  get_inventory = λ k w _. fetch-Calmly (w.inventories k) w;
  get_connection = λ k w _. fetch-Calmly (w.connections k) w;
  get_instance = λ k w _. fetch-Calmly (w.instances k) w;
  get_secret = λ k w _. fetch-Calmly (w.secrets k) w;
  update_inventory_status = λ x w _. write-Calmly x keep_inventory w;
  update_connection_status = λ x w _. write-Calmly x keep_connection w;
  update_instance_status = λ x w _. write-Calmly x keep_instance w;
  create_or_update_secret = λ s f w _. put_secret-Calmly s (f (stored_secret s w)) w;
  create_or_update_config_map = λ c f w _. put_config_map-Calmly c (f (stored_config_map c w)) w;
}
