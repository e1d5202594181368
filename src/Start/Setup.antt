-- ===== src/Start/Setup.antt =====
-- The four SetupWithManager methods.
use provider_operator_exampl.Base.{
  ℕ, ◌*◌, String, Option, none, some, [], ◌∷◌, true, false, inl, inr, M, throw,
}
use provider_operator_exampl.SyncPeriod.{minute}
use provider_operator_exampl.Inventory.{instance_requests}
use provider_operator_exampl.Registration.{Operator}
use provider_operator_exampl.Registration.Deployments.{read_environment, ignore_other_deployments}
use provider_operator_exampl.Start.{
  Toolkit, Controller, Kind, deployment, provider_inventory, provider_connection, provider_instance,
  instances, dbaas_provider_reconciler, provider_inventory_reconciler,
  provider_connection_reconciler, provider_instance_reconciler,
}

-- time.Second
abbrev pub second : ℕ
second = 1000000000

-- ctrl.NewControllerManagedBy(mgr).For(kind)
abbrev pub controller_for : Kind → Controller
controller_for kind = record {
  for = kind;
  predicates = [];
  only_metadata = false;
  watches = [];
  rate_limiter = none;
}

abbrev pub dbaas_provider_controller : Operator → Controller
dbaas_provider_controller operator = record {
  for = deployment;
  predicates = ignore_other_deployments operator ∷ [];
  only_metadata = true;
  watches = [];
  rate_limiter = some (record { base_delay = 30 * second; max_delay = 30 * minute });
}

abbrev pub inventory_controller : Controller
inventory_controller = record (controller_for provider_inventory) {
  watches = instances instance_requests ∷ [];
}

module _ (K : Toolkit) where
  -- DBaaSProviderReconciler.SetupWithManager
  unfoldable pub setup_dbaas_provider :
      (String → Option String)
      → K.Client
      → K.Scheme
      → K.Clientset
      → K.Manager
      → M K.World K.Err (Unit {0})
  setup_dbaas_provider lookup_env client scheme clientset mgr = elim (read_environment lookup_env) [
    | inl text ↦ throw (K.new_error text)
    | inr operator ↦
        K.complete mgr (dbaas_provider_controller operator)
          (dbaas_provider_reconciler client scheme clientset operator)
  ]

  -- ProviderInventoryReconciler.SetupWithManager
  abbrev pub setup_provider_inventory : K.Client → K.Scheme → K.Manager → M K.World K.Err (Unit {0})
  setup_provider_inventory client scheme mgr =
      K.complete mgr inventory_controller (provider_inventory_reconciler client scheme)

  -- ProviderConnectionReconciler.SetupWithManager
  abbrev pub setup_provider_connection :
      K.Client → K.Scheme → K.Manager → M K.World K.Err (Unit {0})
  setup_provider_connection client scheme mgr =
      K.complete mgr (controller_for provider_connection)
        (provider_connection_reconciler client scheme)

  -- ProviderInstanceReconciler.SetupWithManager
  abbrev pub setup_provider_instance : K.Client → K.Scheme → K.Manager → M K.World K.Err (Unit {0})
  setup_provider_instance client scheme mgr =
      K.complete mgr (controller_for provider_instance) (provider_instance_reconciler client scheme)
