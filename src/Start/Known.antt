-- ===== src/Start/Known.antt =====
-- Which types the scheme knows when the init functions have run.
use provider_operator_exampl.Base.{String, List, [], ◌∷◌, All, ◌⊎◌, inl, inr, ◌≡◌, refl, ◌∙◌, arith}
use provider_operator_exampl.Start.{
  Toolkit, ApiType, connection_type, connection_list_type, instance_type, instance_list_type,
  inventory_type, inventory_list_type,
}
use provider_operator_exampl.Start.Scheme.{
  group, version, init, scheme_builder, init_connection_types, init_instance_types,
}

-- What apimachinery promises of schemes and their builders: a type is known under a group and a
-- version once it was registered with a builder for them that was added, and stays known.
pub record Catalogue (K : Toolkit) : Type 1 where
  pub knows : K.Scheme → String → String → ApiType → Type 0
  pub knows_deployments : K.Scheme → Type 0
  pub group_of : K.SchemeBuilder → String
  pub version_of : K.SchemeBuilder → String
  pub holds : K.SchemeBuilder → ApiType → Type 0
  pub new_group : (g v : String) → group_of (K.new_builder g v) ≡ g
  pub new_version : (g v : String) → version_of (K.new_builder g v) ≡ v
  pub register_group :
      (b : K.SchemeBuilder) (types : List ApiType) → group_of (K.register b types) ≡ group_of b
  pub register_version :
      (b : K.SchemeBuilder) (types : List ApiType) → version_of (K.register b types) ≡ version_of b
  pub registers :
      (b : K.SchemeBuilder) (types : List ApiType) → All (holds (K.register b types)) types
  pub register_keeps :
      (b : K.SchemeBuilder) (types : List ApiType) (t : ApiType)
      → holds b t
      → holds (K.register b types) t
  pub client_go_knows :
      (s s' : K.Scheme) → K.add_client_go_to_scheme s ≡ inr s' → knows_deployments s'
  pub dbaas_keeps :
      (s s' : K.Scheme)
      → K.add_dbaas_to_scheme s ≡ inr s'
      → knows_deployments s
      → knows_deployments s'
  pub builder_keeps :
      (b : K.SchemeBuilder) (s s' : K.Scheme)
      → K.add_builder_to_scheme b s ≡ inr s'
      → knows_deployments s
      → knows_deployments s'
  pub builder_adds :
      (b : K.SchemeBuilder) (s s' : K.Scheme) (t : ApiType)
      → K.add_builder_to_scheme b s ≡ inr s'
      → holds b t
      → knows s' (group_of b) (version_of b) t

Sum-cases : {A B : Type 0} (s : A ⊎ B) → ((a : A) × (s ≡ inl a)) ⊎ ((b : B) × (s ≡ inr b))
Sum-cases (inl a) = inl (a, refl)
Sum-cases (inr b) = inr (b, refl)

module _ (K : Toolkit) (C : Catalogue K) where
  abbrev empty : K.SchemeBuilder
  empty = K.new_builder group version

  abbrev with_connections : K.SchemeBuilder
  with_connections = init_connection_types K empty

  abbrev with_instances : K.SchemeBuilder
  with_instances = init_instance_types K with_connections

  builder_group : C.group_of (scheme_builder K) ≡ group
  builder_group =
      C.register_group _ _
      ∙ (C.register_group _ _ ∙ (C.register_group _ _ ∙ C.new_group group version))

  builder_version : C.version_of (scheme_builder K) ≡ version
  builder_version =
      C.register_version _ _
      ∙ (C.register_version _ _ ∙ (C.register_version _ _ ∙ C.new_version group version))

  builder_holds : (t : ApiType) → C.holds (scheme_builder K) t
  builder_holds connection_type =
      C.register_keeps _ _ _
        (C.register_keeps _ _ _ (C.registers empty (connection_type ∷ connection_list_type ∷ [])).0)
  builder_holds connection_list_type =
      C.register_keeps _ _ _ (
        C.register_keeps _ _ _
          (C.registers empty (connection_type ∷ connection_list_type ∷ [])).1.0)
  builder_holds instance_type =
      C.register_keeps _ _ _
        (C.registers with_connections (instance_type ∷ instance_list_type ∷ [])).0
  builder_holds instance_list_type =
      C.register_keeps _ _ _
        (C.registers with_connections (instance_type ∷ instance_list_type ∷ [])).1.0
  builder_holds inventory_type =
      (C.registers with_instances (inventory_type ∷ inventory_list_type ∷ [])).0
  builder_holds inventory_list_type =
      (C.registers with_instances (inventory_type ∷ inventory_list_type ∷ [])).1.0

  -- The scheme that the init functions make, where they do not panic, knows the three resources and
  -- their lists under the group dbaas.redhat.com and the version v1beta1, and it knows deployments:
  -- the kinds that the controllers are for.
  pub init-Known :
      (scheme : K.Scheme)
      → init K ≡ inr scheme
      → ((t : ApiType) → C.knows scheme "dbaas.redhat.com" "v1beta1" t) × C.knows_deployments scheme
  unfolding init
  init-Known scheme e = elim (Sum-cases (K.add_client_go_to_scheme K.new_scheme)) [
    | inl (x, failed) ↦ absurd (ground arith)
    | inr (s₁, first) ↦ elim (Sum-cases (K.add_dbaas_to_scheme s₁)) [
      | inl (x, failed) ↦ absurd (ground arith)
      | inr (s₂, second) ↦
          let third : K.add_builder_to_scheme (scheme_builder K) s₂ ≡ inr scheme = ground arith in
          (
            λ t.
                rw (builder_group, builder_version) at
                  (C.builder_adds (scheme_builder K) s₂ scheme t third (builder_holds t)),
            C.builder_keeps (scheme_builder K) s₂ scheme third
                (C.dbaas_keeps s₁ s₂ second (C.client_go_knows K.new_scheme s₁ first)),
          )
    ]
  ]
