-- ===== src/DeepCopy/Kinds.antt =====
-- The functions of zz_generated.deepcopy.go under their names.
pub mod Plain
use provider_operator_exampl.Api.{
  ProviderInstanceSpec, ProviderInstanceStatus, provider_instance_status,
}
use provider_operator_exampl.Base.{ℕ, String, List, Option, none, some, ok, M, ◌≡◌}
use provider_operator_exampl.DeepCopy.{
  Memory, Struct, Boxed, Object, Resource, ResourceList, resource_struct, list_struct, plain_struct,
  resource_deep_copy_into, list_deep_copy_into, deep_copy, deep_copy_object, deref,
}

-- The structs of metav1 and dbaas-operator that the resources embed.
pub record Embedded (Cell : Type 0) : Type 1 where
  pub object_meta : Struct Cell
  pub list_meta : Struct Cell
  pub connection_spec : Struct Cell
  pub connection_status : Struct Cell
  pub instance_spec : Struct Cell
  pub instance_status : Struct Cell
  pub inventory_spec : Struct Cell
  pub inventory_status : Struct Cell

module _ (Cell : Type 0) where
  -- What a function of each form does to the memory.
  abbrev pub Into : Struct Cell → Type 0
  Into S = S.Value → S.Value → Memory Cell → S.Value × Memory Cell

  abbrev pub Copying : Type 0
  Copying = Option ℕ → M (Memory Cell) ⊥ (Option ℕ)

  abbrev pub ObjectCopying : Type 0
  ObjectCopying = Option ℕ → M (Memory Cell) ⊥ (Option Object)

  abbrev pub ItemsOf : Struct Cell → Type 0
  ItemsOf S = Boxed Cell (List S.Value)

  abbrev pub ListsOf : Struct Cell → Type 0
  ListsOf Meta = Boxed Cell (ResourceList Meta.Value)

  module _ (E : Embedded Cell) where
    abbrev pub connection_struct : Struct Cell
    connection_struct = resource_struct Cell E.object_meta E.connection_spec E.connection_status

    abbrev pub provider_connection_deep_copy_into : Into connection_struct
    provider_connection_deep_copy_into =
        resource_deep_copy_into Cell E.object_meta E.connection_spec E.connection_status

    abbrev pub provider_connection_deep_copy : Boxed Cell connection_struct.Value → Copying
    provider_connection_deep_copy = deep_copy Cell connection_struct

    abbrev pub provider_connection_deep_copy_object :
        Boxed Cell connection_struct.Value → ObjectCopying
    provider_connection_deep_copy_object = deep_copy_object Cell connection_struct

    abbrev pub connection_list_struct : ItemsOf connection_struct → Struct Cell
    connection_list_struct = list_struct Cell E.list_meta connection_struct

    abbrev pub provider_connection_list_deep_copy_into :
        (B : ItemsOf connection_struct) → Into (connection_list_struct B)
    provider_connection_list_deep_copy_into = list_deep_copy_into Cell E.list_meta connection_struct

    abbrev pub provider_connection_list_deep_copy :
        ItemsOf connection_struct → ListsOf E.list_meta → Copying
    provider_connection_list_deep_copy B = deep_copy Cell (connection_list_struct B)

    abbrev pub provider_connection_list_deep_copy_object :
        ItemsOf connection_struct → ListsOf E.list_meta → ObjectCopying
    provider_connection_list_deep_copy_object B = deep_copy_object Cell (connection_list_struct B)

    abbrev pub instance_struct : Struct Cell
    instance_struct = resource_struct Cell E.object_meta E.instance_spec E.instance_status

    abbrev pub provider_instance_deep_copy_into : Into instance_struct
    provider_instance_deep_copy_into =
        resource_deep_copy_into Cell E.object_meta E.instance_spec E.instance_status

    abbrev pub provider_instance_deep_copy : Boxed Cell instance_struct.Value → Copying
    provider_instance_deep_copy = deep_copy Cell instance_struct

    abbrev pub provider_instance_deep_copy_object : Boxed Cell instance_struct.Value → ObjectCopying
    provider_instance_deep_copy_object = deep_copy_object Cell instance_struct

    abbrev pub instance_list_struct : ItemsOf instance_struct → Struct Cell
    instance_list_struct = list_struct Cell E.list_meta instance_struct

    abbrev pub provider_instance_list_deep_copy_into :
        (B : ItemsOf instance_struct) → Into (instance_list_struct B)
    provider_instance_list_deep_copy_into = list_deep_copy_into Cell E.list_meta instance_struct

    abbrev pub provider_instance_list_deep_copy :
        ItemsOf instance_struct → ListsOf E.list_meta → Copying
    provider_instance_list_deep_copy B = deep_copy Cell (instance_list_struct B)

    abbrev pub provider_instance_list_deep_copy_object :
        ItemsOf instance_struct → ListsOf E.list_meta → ObjectCopying
    provider_instance_list_deep_copy_object B = deep_copy_object Cell (instance_list_struct B)

    abbrev pub inventory_struct : Struct Cell
    inventory_struct = resource_struct Cell E.object_meta E.inventory_spec E.inventory_status

    abbrev pub provider_inventory_deep_copy_into : Into inventory_struct
    provider_inventory_deep_copy_into =
        resource_deep_copy_into Cell E.object_meta E.inventory_spec E.inventory_status

    abbrev pub provider_inventory_deep_copy : Boxed Cell inventory_struct.Value → Copying
    provider_inventory_deep_copy = deep_copy Cell inventory_struct

    abbrev pub provider_inventory_deep_copy_object :
        Boxed Cell inventory_struct.Value → ObjectCopying
    provider_inventory_deep_copy_object = deep_copy_object Cell inventory_struct

    abbrev pub inventory_list_struct : ItemsOf inventory_struct → Struct Cell
    inventory_list_struct = list_struct Cell E.list_meta inventory_struct

    abbrev pub provider_inventory_list_deep_copy_into :
        (B : ItemsOf inventory_struct) → Into (inventory_list_struct B)
    provider_inventory_list_deep_copy_into = list_deep_copy_into Cell E.list_meta inventory_struct

    abbrev pub provider_inventory_list_deep_copy :
        ItemsOf inventory_struct → ListsOf E.list_meta → Copying
    provider_inventory_list_deep_copy B = deep_copy Cell (inventory_list_struct B)

    abbrev pub provider_inventory_list_deep_copy_object :
        ItemsOf inventory_struct → ListsOf E.list_meta → ObjectCopying
    provider_inventory_list_deep_copy_object B = deep_copy_object Cell (inventory_list_struct B)

  abbrev pub spec_struct : Struct Cell
  spec_struct = plain_struct Cell ProviderInstanceSpec (record { foo = "" })

  abbrev pub provider_instance_spec_deep_copy_into : Into spec_struct
  provider_instance_spec_deep_copy_into = spec_struct.deep_copy_into

  abbrev pub provider_instance_spec_deep_copy : Boxed Cell ProviderInstanceSpec → Copying
  provider_instance_spec_deep_copy = deep_copy Cell spec_struct

  abbrev pub status_struct : Struct Cell
  status_struct = plain_struct Cell ProviderInstanceStatus provider_instance_status

  abbrev pub provider_instance_status_deep_copy_into : Into status_struct
  provider_instance_status_deep_copy_into = status_struct.deep_copy_into

  abbrev pub provider_instance_status_deep_copy : Boxed Cell ProviderInstanceStatus → Copying
  provider_instance_status_deep_copy = deep_copy Cell status_struct
