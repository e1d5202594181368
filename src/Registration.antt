-- ===== src/Registration.antt =====
-- DBaaSProviderReconciler, controllers/dbaas/dbaasprovider_reconciler.go: it registers the provider
-- with the DBaaS operator when the operator's own deployment is first seen. Log lines are left out.
pub mod Types
pub mod Data
pub mod Spec
pub mod Deployments
pub mod Laws
pub mod Once
use provider_operator_exampl.Host.{Host, Reply, done, failed, requeued}
use provider_operator_exampl.Registration.Types.{Plans, ProviderSpec, ProvisioningParameter}
use provider_operator_exampl.Registration.Spec.{build_provider_spec}
use provider_operator_exampl.Api.{ObjectMeta, OwnerReference, ObjectKey}
use provider_operator_exampl.Base.{
  not, length, err, ltb, ◌==◌, ok, if◌then◌else◌, return, false, true, ◌∷◌, none, panic, Bool,
  handle, some, [], M, List, Option, String,
}
use provider_operator_exampl.Base.Dict.{Dict}

-- rbac.ClusterRole
pub record ClusterRole : Type 0 where
  pub name : String
  pub uid : String

-- dbaasv1beta1.DBaaSProvider
pub record DBaaSProvider : Type 0 where
  pub metadata : ObjectMeta
  pub spec : ProviderSpec

-- What the reconciler calls beside the errors of the host. The answers of `client.Get` are used
-- only for their errors.
pub record Registrar (W E : Type 0) : Type 0 where
  pub get_deployment : ObjectKey → M W E (Unit {0})
  -- the kinds of Discovery().ServerResourcesForGroupVersion
  pub server_resources : String → M W E (List String)
  pub get_provider : String → M W E (Unit {0})
  -- client.List of the cluster roles that have the labels
  pub list_cluster_roles : Dict String → M W E (List ClusterRole)
  pub create_provider : DBaaSProvider → M W E (Unit {0})
  -- apierrors.NewNotFound of a group, a resource and a name
  pub new_not_found : String → String → String → E
  -- dbaasv1beta1.GroupVersion.String()
  pub group_version : String
  pub plans : Plans

-- The fields of the reconciler that SetupWithManager sets.
pub record Operator : Type 0 where
  pub operator_name_version : String
  pub operator_install_namespace : String

abbrev pub dbaas_provider_kind : String
dbaas_provider_kind = "DBaaSProvider"

abbrev pub provider_resource_name : String
provider_resource_name = "provider-example-registration"

-- The loop of checkCrdInstalled.
unfoldable pub has_kind : String → List String → Bool
has_kind kind [] = false
has_kind kind (k ∷ kinds) = if k == kind then true else has_kind kind kinds

abbrev pub empty_parameter : ProvisioningParameter
empty_parameter = record { display_name = ""; help_text = ""; conditional_data = [] }

-- The owner of the registration: a cluster role of the operator.
abbrev pub owner_of : ClusterRole → OwnerReference
owner_of role = record {
  api_version = "rbac.authorization.k8s.io/v1";
  kind = "ClusterRole";
  uid = role.uid;
  name = role.name;
  controller = some true;
  block_owner_deletion = some false;
}

-- The registration that a cluster role owns.
abbrev pub cr_of : Plans → ClusterRole → DBaaSProvider
cr_of plans role = record {
  metadata = record {
    name = provider_resource_name;
    namespace = "";
    labels = ("related-to", "dbaas-operator") ∷ ("type", "dbaas-provider-registration") ∷ [];
    owner_references = owner_of role ∷ [];
    resource_version = "";
  };
  spec = build_provider_spec plans empty_parameter empty_parameter;
}

-- `none` is the panic of an index out of range.
unfoldable pub build_provider_cr : Plans → List ClusterRole → Option DBaaSProvider
build_provider_cr plans [] = none
build_provider_cr plans (role ∷ roles) = some (cr_of plans role)

-- The labels by which the cluster roles of the operator are found.
abbrev pub role_labels : Operator → Dict String
role_labels operator =
    ("olm.owner", operator.operator_name_version) ∷ ("olm.owner.kind", "ClusterServiceVersion") ∷ []

module _ (H : Host) (R : Registrar H.World H.Err) where
  open H use {World, Err}

  unfoldable pub check_crd_installed : String → String → M World Err Bool
  check_crd_installed group_version kind =
      handle (R.server_resources group_version)
        (λ e w. if H.is_not_found e then ok false w else err e w)
        (λ kinds. return (has_kind kind kinds))

  abbrev create_cr : Option DBaaSProvider → M World Err (Reply Err)
  create_cr none w = panic w
  create_cr (some cr) w =
      handle (R.create_provider cr) (λ e. return (failed e)) (λ _. return done) w

  -- From the missing registration on.
  unfoldable pub register : Operator → M World Err (Reply Err)
  register operator =
      handle (R.list_cluster_roles (role_labels operator)) (λ e. return (failed e))
        λ roles w.
          if ltb (length roles) 1
          then ok
              (failed (R.new_not_found "rbac.authorization.k8s.io" "ClusterRole" "potentialOwner"))
              w
          else create_cr (build_provider_cr R.plans roles) w

  unfoldable pub reconcile : Operator → ObjectKey → M World Err (Reply Err)
  unfolding check_crd_installed register
  reconcile operator request =
      handle (R.get_deployment request)
        (λ e w. if H.is_not_found e then ok done w else ok (failed e) w)
        λ _.
          handle (check_crd_installed R.group_version dbaas_provider_kind) (λ e. return (failed e))
            λ installed w.
              if not installed
              then ok requeued w
              else handle (R.get_provider provider_resource_name)
                  (λ e w'. if H.is_not_found e then register operator w' else ok (failed e) w')
                  (λ _. return done) w
