-- ===== src/Host.antt =====
-- What the controllers run against and the repository does not implement: the API server behind
-- `client.Client`, the errors of apimachinery, `SetStatusCondition`, `SetControllerReference` and
-- `CreateOrUpdate`. Each is a parameter: it may answer, fail or change the world in any way.
pub mod Server
pub mod Memory
use provider_operator_exampl.Base.{String, Bool, true, false, Option, none, some, List, ◌⊎◌, M}
use provider_operator_exampl.Api.{
  ObjectKey, ObjectMeta, Condition, ProviderInventory, ProviderConnection, ProviderInstance, Secret,
  ConfigMap,
}

pub record Host : Type 1 where
  -- the API server, the caches, the provider cloud and the clock
  pub World : Type 0
  -- Go's `error`
  pub Err : Type 0
  -- apierrors.IsNotFound and apierrors.IsConflict
  pub is_not_found : Err → Bool
  pub is_conflict : Err → Bool
  -- err.Error()
  pub error_text : Err → String
  -- errors.New and fmt.Errorf
  pub new_error : String → Err
  -- client.Get, for each kind that is read
  pub get_inventory : ObjectKey → M World Err ProviderInventory
  pub get_connection : ObjectKey → M World Err ProviderConnection
  pub get_instance : ObjectKey → M World Err ProviderInstance
  pub get_secret : ObjectKey → M World Err Secret
  -- client.Status().Update: the object comes back as the server has it
  pub update_inventory_status : ProviderInventory → M World Err ProviderInventory
  pub update_connection_status : ProviderConnection → M World Err ProviderConnection
  pub update_instance_status : ProviderInstance → M World Err ProviderInstance
  -- controllerutil.CreateOrUpdate(ctx, client, obj, mutate), where `mutate` may fail
  pub create_or_update_secret : Secret → (Secret → Err ⊎ Secret) → M World Err Secret
  pub create_or_update_config_map :
      ConfigMap → (ConfigMap → Err ⊎ ConfigMap) → M World Err ConfigMap
  -- ctrl.SetControllerReference(connection, object, scheme)
  pub set_controller_reference : ProviderConnection → ObjectMeta → Err ⊎ ObjectMeta
  -- apimeta.SetStatusCondition, which reads the clock
  pub set_status_condition : World → List Condition → Condition → List Condition
  -- dbaasv1beta1.TypeLabelKey and dbaasv1beta1.TypeLabelValue
  pub type_label_key : String
  pub type_label_value : String
  -- the text of dbaasv1beta1.ProvisioningName
  pub provisioning_name_text : String

-- What a Reconcile returns: `ctrl.Result.Requeue`, and the error if there is one.
pub record Reply (E : Type 0) : Type 0 where
  pub requeue : Bool
  pub failure : Option E

module _ {E : Type 0} where
  -- `ctrl.Result{}, nil`
  abbrev pub done : Reply E
  done = record { requeue = false; failure = none }

  -- `ctrl.Result{}, err`
  abbrev pub failed : E → Reply E
  failed e = record { requeue = false; failure = some e }

  -- `ctrl.Result{Requeue: true}, err`
  abbrev pub retried : E → Reply E
  retried e = record { requeue = true; failure = some e }

  -- `ctrl.Result{Requeue: true}, nil`
  abbrev pub requeued : Reply E
  requeued = record { requeue = true; failure = none }
