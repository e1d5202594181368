-- ===== src/Registration/Laws.antt =====
-- How a reconciliation of the registration ends.
use provider_operator_exampl.Host.{Host, done}
use provider_operator_exampl.Registration.{
  dbaas_provider_kind, has_kind, owner_of, cr_of, provider_resource_name, role_labels,
  DBaaSProvider, build_provider_cr, register, ClusterRole, Registrar, Operator, reconcile,
}
use provider_operator_exampl.Api.{ObjectKey}
use provider_operator_exampl.Base.{
  refl, [], answered, panicked, String, refused, ran, true, ◌∷◌, arith, err, ok, ◌≡◌, List,
}

module _ (H : Host) (R : Registrar H.World H.Err) where
  open H use {World, Err}

  -- How a reconciliation ends without an error or a request for another: there is no deployment,
  -- or there is a registration, or one was created, owned by the first cluster role found.
  pub data Finish (operator : Operator) (request : ObjectKey) (w w' : World) : Type 0 where
    absent :
        (e : Err)
        → R.get_deployment request w ≡ err e w'
        → H.is_not_found e ≡ true
        → Finish operator request w w'
    present :
        (w₁ : World)
        → R.get_provider provider_resource_name w₁ ≡ ok tt w'
        → Finish operator request w w'
    created :
        (e : Err) (kinds : List String) (role : ClusterRole) (roles : List ClusterRole)
        (cr : DBaaSProvider) (w₁ w₂ w₃ w₄ : World)
        → R.get_deployment request w ≡ ok tt w₁
        → R.server_resources R.group_version w₁ ≡ ok kinds w₂
        → has_kind dbaas_provider_kind kinds ≡ true
        → R.get_provider provider_resource_name w₂ ≡ err e w₃
        → H.is_not_found e ≡ true
        → R.list_cluster_roles (role_labels operator) w₃ ≡ ok (role ∷ roles) w₄
        → cr.metadata.name ≡ provider_resource_name
        → cr.metadata.owner_references ≡ owner_of role ∷ []
        → R.create_provider cr w₄ ≡ ok tt w'
        → Finish operator request w w'

  -- The cluster role by which the registration is created, found from the world `w`.
  record Created (operator : Operator) (w w' : World) : Type 0 where
    role : ClusterRole
    roles : List ClusterRole
    cr : DBaaSProvider
    between : World
    listed : R.list_cluster_roles (role_labels operator) w ≡ ok (role ∷ roles) between
    named : cr.metadata.name ≡ provider_resource_name
    owned : cr.metadata.owner_references ≡ owner_of role ∷ []
    made : R.create_provider cr between ≡ ok tt w'

  register_of :
      (operator : Operator) (roles : List ClusterRole) (w w₁ w' : World)
      → R.list_cluster_roles (role_labels operator) w ≡ ok roles w₁
      → register H R operator w ≡ ok done w'
      → Created operator w w'
  unfolding register build_provider_cr
  register_of operator [] w w₁ w' l h = absurd (ground arith)
  register_of operator (role ∷ roles) w w₁ w' l h = record {
    role = role;
    roles = roles;
    cr = cr_of R.plans role;
    between = w₁;
    listed = l;
    named = refl;
    owned = refl;
    made = ground arith;
  }

  register-Created :
      (operator : Operator) (w w' : World)
      → register H R operator w ≡ ok done w'
      → Created operator w w'
  unfolding register
  register-Created operator w w' h = elim (ran (R.list_cluster_roles (role_labels operator) w)) [
    | refused e w₁ u ↦ absurd (ground arith)
    | panicked w₁ u ↦ absurd (ground arith)
    | answered roles w₁ u ↦ register_of operator roles w w₁ w' u h
  ]

  -- A reconciliation of the registration that ends without an error or a request for another found
  -- no deployment, or found the provider registered, or found the kind of providers served and the
  -- provider not registered, and created it under its name, owned by the first cluster role of the
  -- operator.
  pub registration_reconcile-Finish :
      (operator : Operator) (request : ObjectKey) (w w' : World)
      → reconcile H R operator request w ≡ ok done w'
      → Finish operator request w w'
  unfolding reconcile
  registration_reconcile-Finish operator request w w' h = elim (ran (R.get_deployment request w)) [
    | refused e w₁ u ↦ absent e (ground arith) (ground arith)
    | panicked w₁ u ↦ absurd (ground arith)
    | answered t w₁ u ↦ elim (ran (R.server_resources R.group_version w₁)) [
      | refused e w₂ v ↦ absurd (ground arith)
      | panicked w₂ v ↦ absurd (ground arith)
      | answered kinds w₂ v ↦ elim (ran (R.get_provider provider_resource_name w₂)) [
        | panicked w₃ x ↦ absurd (ground arith)
        | answered t w₃ x ↦ present w₂ (ground arith)
        | refused e w₃ x ↦
            let c = register-Created operator w₃ w' (ground arith) in
            created e kinds c.role c.roles c.cr w₁ w₂ w₃ c.between (ground arith) v (ground arith) x
              (ground arith) c.listed c.named c.owned c.made
      ]
    ]
  ]
