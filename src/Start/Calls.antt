-- ===== src/Start/Calls.antt =====
-- The calls of main, in the order in which it makes them, and worlds that remember them.
use provider_operator_exampl.Base.{String, none, some, true, false, List, [], ◌∷◌, ◌++◌, ◌≡◌, world}
use provider_operator_exampl.Registration.{Operator}
use provider_operator_exampl.Start.{
  provider_instance_reconciler, provider_connection_reconciler, provider_inventory_reconciler,
  dbaas_provider_reconciler, provider_inventory, Reconciler, deployment, Kind, Toolkit, Controller,
  ManagerOptions, provider_connection, provider_instance, instances,
}
use provider_operator_exampl.Registration.Deployments.{ignore_other_deployments}
use provider_operator_exampl.Start.Program.{CommandLine, Exit, died, exited, no_controller}

-- The kind whose objects a reconciler takes.
abbrev pub kind_of : {Client Scheme Clientset : Type 0} → Reconciler Client Scheme Clientset → Kind
kind_of (dbaas_provider_reconciler client scheme clientset operator) = deployment
kind_of (provider_inventory_reconciler client scheme) = provider_inventory
kind_of (provider_connection_reconciler client scheme) = provider_connection
kind_of (provider_instance_reconciler client scheme) = provider_instance

-- The calls that change the process or the cluster, without what only the toolkit knows.
pub data Call : Type 0 where
  gets_config : Call
  makes_manager : ManagerOptions → Call
  makes_clientset : Call
  completes : Controller → Kind → Call
  adds_healthz_check : String → Call
  adds_readyz_check : String → Call
  starts : Call

-- A world that remembers the calls: each call is added behind those before, however it ends.
pub record Audit (K : Toolkit) : Type 0 where
  pub calls : K.World → List Call
  pub get_config_or_die_calls :
      (w : K.World) → calls (world (K.get_config_or_die w)) ≡ calls w ++ (gets_config ∷ [])
  pub new_manager_calls :
      (config : K.Config) (scheme : K.Scheme) (options : ManagerOptions) (w : K.World)
      → calls (world (K.new_manager config scheme options w))
        ≡ calls w ++ (makes_manager options ∷ [])
  pub new_for_config_calls :
      (config : K.Config) (w : K.World)
      → calls (world (K.new_for_config config w)) ≡ calls w ++ (makes_clientset ∷ [])
  pub complete_calls :
      (mgr : K.Manager) (controller : Controller)
      (reconciler : Reconciler K.Client K.Scheme K.Clientset) (w : K.World)
      → calls (world (K.complete mgr controller reconciler w))
        ≡ calls w ++ (completes controller (kind_of reconciler) ∷ [])
  pub add_healthz_check_calls :
      (mgr : K.Manager) (name : String) (w : K.World)
      → calls (world (K.add_healthz_check mgr name w)) ≡ calls w ++ (adds_healthz_check name ∷ [])
  pub add_readyz_check_calls :
      (mgr : K.Manager) (name : String) (w : K.World)
      → calls (world (K.add_readyz_check mgr name w)) ≡ calls w ++ (adds_readyz_check name ∷ [])
  pub start_calls :
      (mgr : K.Manager) (w : K.World) → calls (world (K.start mgr w)) ≡ calls w ++ (starts ∷ [])

-- A call of the start and how the process exits when it fails.
pub record Step (E : Type 0) : Type 0 where
  pub call : Call
  pub exit : E → Exit E

-- A controller for a kind, with nothing more.
abbrev pub bare_controller : Kind → Controller
bare_controller kind = record {
  for = kind;
  predicates = [];
  only_metadata = false;
  watches = [];
  rate_limiter = none;
}

-- The options of the manager, written out.
abbrev pub wanted_options : CommandLine → ManagerOptions
wanted_options flags = record {
  metrics_bind_address = elim flags.metrics_bind_address [ none ↦ ":8080" | some a ↦ a ];
  port = 9443;
  health_probe_bind_address = elim flags.health_probe_bind_address [ none ↦ ":8081" | some a ↦ a ];
  leader_election = elim flags.leader_elect [ none ↦ false | some b ↦ b ];
  leader_election_id = "425ea28f.redhat.com";
}

module _ {E : Type 0} where
  abbrev pub steps_from : ManagerOptions → List (Step E) → List (Step E)
  steps_from options rest =
      record { call = gets_config; exit = died }
      ∷ record { call = makes_manager options; exit = exited "unable to start manager" none }
      ∷ record { call = makes_clientset; exit = exited "unable to create clientset" none }
      ∷ rest

  -- The steps before the environment is read.
  abbrev pub first_steps : CommandLine → List (Step E) → List (Step E)
  first_steps flags rest = steps_from (wanted_options flags) rest

  -- The steps after it.
  abbrev pub last_steps : Operator → List (Step E)
  last_steps operator =
      record {
        call =
            completes
              (record {
                for = deployment;
                predicates = ignore_other_deployments operator ∷ [];
                only_metadata = true;
                watches = [];
                rate_limiter =
                    some (record { base_delay = 30000000000; max_delay = 1800000000000 });
              })
              deployment;
        exit = no_controller "DBaaSProvider";
      }
      ∷ record {
        call =
            completes
              (record (bare_controller provider_inventory) {
                watches = instances (λ instance. instance.spec.inventory_ref ∷ []) ∷ [];
              })
              provider_inventory;
        exit = no_controller "ProviderInventory";
      }
      ∷ record {
        call = completes (bare_controller provider_connection) provider_connection;
        exit = no_controller "ProviderConnection";
      }
      ∷ record {
        call = completes (bare_controller provider_instance) provider_instance;
        exit = no_controller "ProviderInstance";
      }
      ∷ record {
        call = adds_healthz_check "healthz";
        exit = exited "unable to set up health check" none;
      }
      ∷ record {
        call = adds_readyz_check "readyz";
        exit = exited "unable to set up ready check" none;
      }
      ∷ record { call = starts; exit = exited "problem running manager" none }
      ∷ []
