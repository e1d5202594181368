-- ===== src/Start/Scheme.antt =====
-- The scheme: the init functions of apis/dbaas/v1beta1, which Go runs in the order of the file
-- names, and the init function of main.go.
use provider_operator_exampl.Base.{[], ◌∷◌, String, ◌⊎◌, inl, inr}
use provider_operator_exampl.Start.{
  Toolkit, connection_type, connection_list_type, instance_type, instance_list_type, inventory_type,
  inventory_list_type,
}

-- GroupVersion
abbrev pub group : String
group = "dbaas.redhat.com"

abbrev pub version : String
version = "v1beta1"

module _ (K : Toolkit) where
  abbrev pub init_connection_types : K.SchemeBuilder → K.SchemeBuilder
  init_connection_types builder = K.register builder (connection_type ∷ connection_list_type ∷ [])

  abbrev pub init_instance_types : K.SchemeBuilder → K.SchemeBuilder
  init_instance_types builder = K.register builder (instance_type ∷ instance_list_type ∷ [])

  abbrev pub init_inventory_types : K.SchemeBuilder → K.SchemeBuilder
  init_inventory_types builder = K.register builder (inventory_type ∷ inventory_list_type ∷ [])

  -- SchemeBuilder, when the init functions have run
  abbrev pub scheme_builder : K.SchemeBuilder
  scheme_builder =
      init_inventory_types
        (init_instance_types (init_connection_types (K.new_builder group version)))

  -- AddToScheme
  abbrev pub add_to_scheme : K.Scheme → K.Err ⊎ K.Scheme
  add_to_scheme = K.add_builder_to_scheme scheme_builder

  -- main's init, up to the first error: utilruntime.Must panics with it.
  unfoldable pub init : K.Err ⊎ K.Scheme
  init = elim (K.add_client_go_to_scheme K.new_scheme) [
    | inl e ↦ inl e
    | inr scheme ↦ elim (K.add_dbaas_to_scheme scheme) [
      | inl e ↦ inl e
      | inr scheme' ↦ add_to_scheme scheme'
    ]
  ]
