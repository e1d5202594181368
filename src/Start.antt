-- ===== src/Start.antt =====
-- What main.go and the SetupWithManager methods build, and what they call to start the operator:
-- controller-runtime and client-go are not part of the repository, so their calls are the
-- parameters that Toolkit lists.
pub mod Scheme
pub mod Setup
pub mod Program
pub mod Calls
pub mod Laws
pub mod Order
pub mod Known
use provider_operator_exampl.Base.{ℕ, Bool, String, Option, List, ◌⊎◌, M}
use provider_operator_exampl.Api.{ObjectKey, ProviderInstance}
use provider_operator_exampl.Registration.{Operator}
use provider_operator_exampl.Registration.Deployments.{Event}

-- The kinds that the controllers are for.
pub data Kind : Type 0 where
  deployment provider_inventory provider_connection provider_instance : Kind

-- A further kind that wakes a controller, with the requests that one of its objects makes.
pub data Watch : Type 0 where
  instances : (ProviderInstance → List ObjectKey) → Watch

-- workqueue.NewItemExponentialFailureRateLimiter: two durations in nanoseconds
pub record RateLimiter : Type 0 where
  pub base_delay : ℕ
  pub max_delay : ℕ

-- What ctrl.NewControllerManagedBy(mgr) has been told when it is completed.
pub record Controller : Type 0 where
  pub for : Kind
  -- builder.WithPredicates
  pub predicates : List (Event → Bool)
  -- builder.OnlyMetadata
  pub only_metadata : Bool
  pub watches : List Watch
  pub rate_limiter : Option RateLimiter

-- The reconcilers with the fields that main and SetupWithManager set. The service of three of them
-- is a FakeProviderService, whose only field is the client.
pub data Reconciler (Client Scheme Clientset : Type 0) : Type 0 where
  dbaas_provider_reconciler :
      Client → Scheme → Clientset → Operator → Reconciler Client Scheme Clientset
  provider_inventory_reconciler : Client → Scheme → Reconciler Client Scheme Clientset
  provider_connection_reconciler : Client → Scheme → Reconciler Client Scheme Clientset
  provider_instance_reconciler : Client → Scheme → Reconciler Client Scheme Clientset

-- The Go types of apis/dbaas/v1beta1 that stand for objects of the API.
pub data ApiType : Type 0 where
  connection_type connection_list_type : ApiType
  instance_type instance_list_type : ApiType
  inventory_type inventory_list_type : ApiType

-- ctrl.Options, without the scheme
pub record ManagerOptions : Type 0 where
  pub metrics_bind_address : String
  pub port : ℕ
  pub health_probe_bind_address : String
  pub leader_election : Bool
  pub leader_election_id : String

pub record Toolkit : Type 1 where
  -- the process and the cluster that it runs in
  pub World : Type 0
  -- Go's `error`
  pub Err : Type 0
  pub Scheme : Type 0
  pub SchemeBuilder : Type 0
  pub Config : Type 0
  pub Client : Type 0
  pub Clientset : Type 0
  pub Manager : Type 0
  -- fmt.Errorf
  pub new_error : String → Err
  -- runtime.NewScheme
  pub new_scheme : Scheme
  -- AddToScheme of client-go and of dbaas-operator
  pub add_client_go_to_scheme : Scheme → Err ⊎ Scheme
  pub add_dbaas_to_scheme : Scheme → Err ⊎ Scheme
  -- &scheme.Builder{GroupVersion} of a group and a version, its Register and its AddToScheme
  pub new_builder : String → String → SchemeBuilder
  pub register : SchemeBuilder → List ApiType → SchemeBuilder
  pub add_builder_to_scheme : SchemeBuilder → Scheme → Err ⊎ Scheme
  -- ctrl.GetConfigOrDie: after an error the process has ended
  pub get_config_or_die : M World Err Config
  -- ctrl.NewManager
  pub new_manager : Config → Scheme → ManagerOptions → M World Err Manager
  -- mgr.GetConfig, mgr.GetClient and mgr.GetScheme
  pub get_config : Manager → Config
  pub get_client : Manager → Client
  pub get_scheme : Manager → Scheme
  -- kubernetes.NewForConfig
  pub new_for_config : Config → M World Err Clientset
  -- the builder's Complete(r)
  pub complete : Manager → Controller → Reconciler Client Scheme Clientset → M World Err (Unit {0})
  -- mgr.AddHealthzCheck and mgr.AddReadyzCheck with healthz.Ping
  pub add_healthz_check : Manager → String → M World Err (Unit {0})
  pub add_readyz_check : Manager → String → M World Err (Unit {0})
  -- mgr.Start(ctrl.SetupSignalHandler()), which returns once the manager has stopped
  pub start : Manager → M World Err (Unit {0})
