-- ===== src/Start/Program.antt =====
-- main of main.go: the flags and the way from the configuration to the manager, with the exits.
use provider_operator_exampl.Base.{
  ◌>>◌, Bool, false, String, Option, none, some, inl, inr, M, Outcome, ok, err, panic, ◌>>=◌,
}
use provider_operator_exampl.Start.{Toolkit, ManagerOptions}
use provider_operator_exampl.Start.Scheme.{init}
use provider_operator_exampl.Start.Setup.{
  setup_dbaas_provider, setup_provider_inventory, setup_provider_connection,
  setup_provider_instance,
}

-- The flags as the command line gives them; those of zap are left out.
pub record CommandLine : Type 0 where
  pub metrics_bind_address : Option String
  pub health_probe_bind_address : Option String
  pub leader_elect : Option Bool

-- A flag that is not given has its default.
abbrev pub or_default {ℓ} : {A : Type ℓ} → Option A → A → A
or_default (some x) d = x
or_default none d = d

abbrev pub manager_options : CommandLine → ManagerOptions
manager_options flags = record {
  metrics_bind_address = or_default flags.metrics_bind_address ":8080";
  port = 9443;
  health_probe_bind_address = or_default flags.health_probe_bind_address ":8081";
  leader_election = or_default flags.leader_elect false;
  leader_election_id = "425ea28f.redhat.com";
}

-- How the process ends before main returns, always with the code 1: a call of a package has ended
-- it, or main has logged the error with a message and the name of a controller.
pub data Exit (E : Type 0) : Type 0 where
  died : E → Exit E
  exited : String → Option String → E → Exit E

-- The message of a failed SetupWithManager.
abbrev pub no_controller : {E : Type 0} → String → E → Exit E
no_controller name e = exited "unable to create controller" (some name) e

-- `if err != nil { setupLog.Error(err, …); os.Exit(1) }` after a call
module _ {W E A : Type 0} where
  abbrev pub exit_on_error : Outcome W E A → (E → Exit E) → Outcome W (Exit E) A
  exit_on_error (ok a w) exit = ok a w
  exit_on_error (err e w) exit = err (exit e) w
  exit_on_error (panic w) exit = panic w

  abbrev pub or_exit : M W E A → (E → Exit E) → M W (Exit E) A
  or_exit m exit w = exit_on_error (m w) exit

module _ (K : Toolkit) (lookup_env : String → Option String) where
  unfoldable pub main : CommandLine → K.Scheme → M K.World (Exit K.Err) (Unit {0})
  unfolding setup_dbaas_provider
  main flags scheme = do
    config ← or_exit K.get_config_or_die died
    mgr ←
        or_exit (K.new_manager config scheme (manager_options flags))
          (exited "unable to start manager" none)
    clientset ←
        or_exit (K.new_for_config (K.get_config mgr)) (exited "unable to create clientset" none)
    let client = K.get_client mgr
    or_exit (setup_dbaas_provider K lookup_env client (K.get_scheme mgr) clientset mgr)
        (no_controller "DBaaSProvider")
    or_exit (setup_provider_inventory K client (K.get_scheme mgr) mgr)
        (no_controller "ProviderInventory")
    or_exit (setup_provider_connection K client (K.get_scheme mgr) mgr)
        (no_controller "ProviderConnection")
    or_exit (setup_provider_instance K client (K.get_scheme mgr) mgr)
        (no_controller "ProviderInstance")
    or_exit (K.add_healthz_check mgr "healthz") (exited "unable to set up health check" none)
    or_exit (K.add_readyz_check mgr "readyz") (exited "unable to set up ready check" none)
    or_exit (K.start mgr) (exited "problem running manager" none)

  -- The whole process: a package that cannot be added to the scheme makes init panic.
  unfoldable pub program : CommandLine → M K.World (Exit K.Err) (Unit {0})
  unfolding init
  program flags w = elim (init K) [ inl e ↦ panic w | inr scheme ↦ main flags scheme w ]
