-- ===== src/Registration/Deployments.antt =====
-- Which deployments wake the reconciler, and the environment that says so: SetupWithManager,
-- ignoreOtherDeployments and evaluatePredicateObject.
use provider_operator_exampl.Registration.{Operator}
use provider_operator_exampl.Base.{
  Option-cases, inr, refl, inl, arith, none, some, ◌⊎◌, ◌↔◌, ◌==◌, false, true, Option,
  if◌then◌else◌, Bool, String, ◌≡◌,
}
use provider_operator_exampl.Api.{ObjectMeta}
use provider_operator_exampl.Base.Dict.{lookup}

unfoldable pub evaluate_predicate_object : Operator → ObjectMeta → Bool
evaluate_predicate_object operator object =
    if object.namespace == operator.operator_install_namespace
    then elim (lookup "olm.owner.kind" object.labels) [
      | none ↦ false
      | some kind ↦
          if kind == "ClusterServiceVersion"
          then elim (lookup "olm.owner" object.labels) [
            | none ↦ false
            | some owner ↦ owner == operator.operator_name_version
          ]
          else false
    ]
    else false

-- The events of controller-runtime, each with the object that it is about.
pub data Event : Type 0 where
  create_event delete_event update_event generic_event : ObjectMeta → Event

-- The predicate of ignoreOtherDeployments.
unfoldable pub ignore_other_deployments : Operator → Event → Bool
unfolding evaluate_predicate_object
ignore_other_deployments operator (create_event object) = evaluate_predicate_object operator object
ignore_other_deployments operator (delete_event object) = false
ignore_other_deployments operator (update_event object) = false
ignore_other_deployments operator (generic_event object) = false

-- The part of SetupWithManager that reads the environment: `os.LookupEnv` is the argument, and the
-- text of the error is the result on the left.
unfoldable pub read_environment : (String → Option String) → String ⊎ Operator
read_environment lookup_env = elim (lookup_env "INSTALL_NAMESPACE") [
  | none ↦ inl "INSTALL_NAMESPACE must be set"
  | some namespace ↦ elim (lookup_env "OPERATOR_CONDITION_NAME") [
    | none ↦ inl "OPERATOR_CONDITION_NAME must be set"
    | some name ↦
        inr (record { operator_name_version = name; operator_install_namespace = namespace })
  ]
]

-- The deployment is this operator's own: it lies in its namespace, and a ClusterServiceVersion of
-- its name and version owns it.
pub record IsOwn (operator : Operator) (object : ObjectMeta) : Type 0 where
  pub in_namespace : object.namespace ≡ operator.operator_install_namespace
  pub by_version : lookup "olm.owner.kind" object.labels ≡ some "ClusterServiceVersion"
  pub by_name : lookup "olm.owner" object.labels ≡ some operator.operator_name_version

-- An event wakes the reconciler exactly when it is the creation of the operator's own deployment.
pub ignore_other_deployments_iff :
    (operator : Operator) (event : Event)
    → (ignore_other_deployments operator event ≡ true)
      ↔ ((object : ObjectMeta) × (event ≡ create_event object) × IsOwn operator object)
unfolding ignore_other_deployments
ignore_other_deployments_iff operator (create_event object) = (
  λ h. (
    object,
    refl,
    record { in_namespace = ground arith; by_version = ground arith; by_name = ground arith },
  ),
  λ (other, e, own).
      let same : other ≡ object = cc in
      let mine : IsOwn operator object = rw same at own in ground arith,
)
ignore_other_deployments_iff operator (delete_event object) = (λ h. cc, λ (other, e, own). cc)
ignore_other_deployments_iff operator (update_event object) = (λ h. cc, λ (other, e, own). cc)
ignore_other_deployments_iff operator (generic_event object) = (λ h. cc, λ (other, e, own). cc)

module _ (lookup_env : String → Option String) where
  pub read_environment-set :
      (namespace name : String)
      → lookup_env "INSTALL_NAMESPACE" ≡ some namespace
      → lookup_env "OPERATOR_CONDITION_NAME" ≡ some name
      → read_environment lookup_env
        ≡ inr (record { operator_name_version = name; operator_install_namespace = namespace })
  unfolding read_environment
  read_environment-set namespace name e1 e2 = cc

  pub read_environment-unset :
      (lookup_env "INSTALL_NAMESPACE" ≡ none) ⊎ (lookup_env "OPERATOR_CONDITION_NAME" ≡ none)
      → (text : String) × (read_environment lookup_env ≡ inl text)
  unfolding read_environment
  read_environment-unset missing = elim missing [
    | inl e ↦ ("INSTALL_NAMESPACE must be set", cc)
    | inr e ↦ elim (Option-cases (lookup_env "INSTALL_NAMESPACE")) [
      | inl e' ↦ ("INSTALL_NAMESPACE must be set", cc)
      | inr (namespace, e') ↦ ("OPERATOR_CONDITION_NAME must be set", cc)
    ]
  ]
