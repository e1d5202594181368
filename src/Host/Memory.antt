-- ===== src/Host/Memory.antt =====
-- A host in memory, for the examples.
pub mod Calm
pub mod Served
use provider_operator_exampl.Host.{Host}
use provider_operator_exampl.Host.Server.{Server, SetsConditions, find_condition, key_of}
use provider_operator_exampl.Base.{
  ap, sym, refl, arith, [], eq_refl, some, false, ◌&&◌, ◌≢◌, ◌∷◌, ok, inl, err, true, ◌⊎◌,
  if◌then◌else◌, ◌≡◌, ◌==◌, none, String, M, Bool, List, inr, Option,
}
use provider_operator_exampl.Api.{
  ProviderInstance, ProviderConnection, ProviderInventory, Condition, ConfigMap, Secret, ObjectMeta,
  ObjectKey,
}

pub data MemoryError : Type 0 where
  missing clash : MemoryError
  text : String → MemoryError

abbrev missing_test : MemoryError → Bool
missing_test missing = true
missing_test _ = false

abbrev clash_test : MemoryError → Bool
clash_test clash = true
clash_test _ = false

abbrev error_message : MemoryError → String
error_message missing = "not found"
error_message clash = "conflict"
error_message (text s) = s

-- `busy` makes every status update meet a conflict; `registered` says that the provider is.
pub record Store : Type 0 where
  pub inventories : ObjectKey → Option ProviderInventory
  pub connections : ObjectKey → Option ProviderConnection
  pub instances : ObjectKey → Option ProviderInstance
  pub secrets : ObjectKey → Option Secret
  pub config_maps : ObjectKey → Option ConfigMap
  pub busy : Bool
  pub registered : Bool

abbrev key_test : ObjectKey → ObjectKey → Bool
key_test a b = a.namespace == b.namespace && a.name == b.name

module _ {A : Type 0} where
  abbrev pub put : ObjectKey → A → (ObjectKey → Option A) → ObjectKey → Option A
  put k a at j = if key_test j k then some a else at j

  pub put_self : (k : ObjectKey) (a : A) (at : ObjectKey → Option A) → put k a at k ≡ some a
  put_self k a at = rw (eq_refl k.namespace, eq_refl k.name)

  abbrev fetch : Option A → M Store MemoryError A
  fetch none w = err missing w
  fetch (some a) w = ok a w

  abbrev write : A → (A → Store → Store) → M Store MemoryError A
  write a f w = if w.busy then err clash w else ok a (f a w)

abbrev pub set_condition : List Condition → Condition → List Condition
set_condition [] c = c ∷ []
set_condition (d ∷ ds) c = if d.type == c.type then c ∷ ds else d ∷ set_condition ds c

find-set_condition :
    (cs : List Condition) (c : Condition) → find_condition c.type (set_condition cs c) ≡ some c
unfolding find_condition
find-set_condition [] c = ground (arith, eq_refl c.type)
find-set_condition (d ∷ ds) c = ground (arith, eq_refl c.type, find-set_condition ds c)

find-set_condition_ne :
    (cs : List Condition) (c : Condition) (t : String)
    → t ≢ c.type
    → find_condition t (set_condition cs c) ≡ find_condition t cs
unfolding find_condition
find-set_condition_ne [] c t n = ground arith
find-set_condition_ne (d ∷ ds) c t n = ground (arith, find-set_condition_ne ds c t n)

abbrev renamed : ObjectMeta → ObjectMeta → ObjectMeta
renamed old new = record new { name = old.name; namespace = old.namespace }

abbrev stored_secret : Secret → Store → Secret
stored_secret s w = elim (w.secrets (key_of s.metadata)) [ none ↦ s | some old ↦ old ]

abbrev stored_config_map : ConfigMap → Store → ConfigMap
stored_config_map c w = elim (w.config_maps (key_of c.metadata)) [ none ↦ c | some old ↦ old ]

abbrev put_secret : Secret → MemoryError ⊎ Secret → M Store MemoryError Secret
put_secret s (inl e) w = err e w
put_secret s (inr new) w =
    let y = record new { metadata = renamed s.metadata new.metadata } in
    ok y (record w { secrets = put (key_of s.metadata) y w.secrets })

abbrev put_config_map : ConfigMap → MemoryError ⊎ ConfigMap → M Store MemoryError ConfigMap
put_config_map c (inl e) w = err e w
put_config_map c (inr new) w =
    let y = record new { metadata = renamed c.metadata new.metadata } in
    ok y (record w { config_maps = put (key_of c.metadata) y w.config_maps })

abbrev pub keep_connection : ProviderConnection → Store → Store
keep_connection x w = record w { connections = put (key_of x.metadata) x w.connections }

abbrev keep_inventory : ProviderInventory → Store → Store
keep_inventory x w = record w { inventories = put (key_of x.metadata) x w.inventories }

abbrev pub keep_instance : ProviderInstance → Store → Store
keep_instance x w = record w { instances = put (key_of x.metadata) x w.instances }

abbrev pub memory : Host
memory = record {
  World = Store;
  Err = MemoryError;
  is_not_found = missing_test;
  is_conflict = clash_test;
  error_text = error_message;
  new_error = λ s. text s;
  get_inventory = λ k w. fetch (w.inventories k) w;
  get_connection = λ k w. fetch (w.connections k) w;
  get_instance = λ k w. fetch (w.instances k) w;
  get_secret = λ k w. fetch (w.secrets k) w;
  update_inventory_status = λ x. write x keep_inventory;
  update_connection_status = λ x. write x keep_connection;
  update_instance_status = λ x. write x keep_instance;
  create_or_update_secret = λ s f w. put_secret s (f (stored_secret s w)) w;
  create_or_update_config_map = λ c f w. put_config_map c (f (stored_config_map c w)) w;
  set_controller_reference = λ _ m. inr m;
  set_status_condition = λ _. set_condition;
  type_label_key = "db-operator/type";
  type_label_value = "credentials";
  provisioning_name_text = "name";
}

pub memory-SetsConditions : SetsConditions memory
memory-SetsConditions = record {
  shows = λ w cs c. record {
    shown = c;
    found = find-set_condition cs c;
    same_status = refl;
    same_reason = refl;
    same_message = refl;
  };
  keeps = λ w cs c t n. find-set_condition_ne cs c t n;
}
