-- ===== src/Examples/Starting.antt =====
-- The start of the operator with a toolkit that writes the calls down and answers each.
use provider_operator_exampl.Start.{
  inventory_list_type, inventory_type, instance_list_type, instance_type, connection_list_type,
  connection_type, ApiType, Toolkit,
}
use provider_operator_exampl.Start.Calls.{
  kind_of, first_steps, Call, Audit, gets_config, makes_manager, makes_clientset, completes,
  adds_healthz_check, adds_readyz_check, starts,
}
use provider_operator_exampl.Start.Order.{program_without_environment, Completes, Breaks}
use provider_operator_exampl.Base.{
  inl, ◌⊎◌, ◌==◌, refl, err, ◌∷◌, true, ◌++◌, inr, [], if◌then◌else◌, some, Option, ok, ◌≡◌, none,
  M, List, String,
}
use provider_operator_exampl.Start.Program.{no_controller, CommandLine, program}
use provider_operator_exampl.Start.Scheme.{init}

abbrev answer : {A : Type 0} → A → Call → M (List Call) String A
answer a call w = ok a (w ++ (call ∷ []))

abbrev recorder : Toolkit
recorder = record {
  World = List Call;
  Err = String;
  Scheme = List ApiType;
  SchemeBuilder = List ApiType;
  Config = Unit;
  Client = Unit;
  Clientset = Unit;
  Manager = Unit;
  new_error = λ text. text;
  new_scheme = [];
  add_client_go_to_scheme = λ scheme. inr scheme;
  add_dbaas_to_scheme = λ scheme. inr scheme;
  new_builder = λ group version. [];
  register = λ builder types. builder ++ types;
  add_builder_to_scheme = λ builder scheme. inr (scheme ++ builder);
  get_config_or_die = answer tt gets_config;
  new_manager = λ config scheme options. answer tt (makes_manager options);
  get_config = λ mgr. tt;
  get_client = λ mgr. tt;
  get_scheme = λ mgr. [];
  new_for_config = λ config. answer tt makes_clientset;
  complete = λ mgr controller reconciler. answer tt (completes controller (kind_of reconciler));
  add_healthz_check = λ mgr name. answer tt (adds_healthz_check name);
  add_readyz_check = λ mgr name. answer tt (adds_readyz_check name);
  start = λ mgr. answer tt starts;
}

abbrev recorder_audit : Audit recorder
recorder_audit = record {
  calls = λ w. w;
  get_config_or_die_calls = λ w. refl;
  new_manager_calls = λ config scheme options w. refl;
  new_for_config_calls = λ config w. refl;
  complete_calls = λ mgr controller reconciler w. refl;
  add_healthz_check_calls = λ mgr name w. refl;
  add_readyz_check_calls = λ mgr name w. refl;
  start_calls = λ mgr w. refl;
}

abbrev no_flags : CommandLine
no_flags = record {
  metrics_bind_address = none;
  health_probe_bind_address = none;
  leader_elect = some true;
}

abbrev api_types : List ApiType
api_types =
    connection_type ∷ connection_list_type ∷ instance_type ∷ instance_list_type ∷ inventory_type
    ∷ inventory_list_type ∷ []

init-recorder : init recorder ≡ inr api_types
unfolding init
init-recorder = refl

abbrev set_environment : String → Option String
set_environment name =
    if name == "INSTALL_NAMESPACE"
    then some "dbaas"
    else if name == "OPERATOR_CONDITION_NAME"
    then some "provider.v1"
    else none

program_without_environment_example :
    let o = program recorder (λ name. none) no_flags [] in
    ((text : String) × Completes recorder recorder_audit
        (λ w o. o ≡ err (no_controller "DBaaSProvider" text) w)
        (first_steps no_flags [])
        []
        o)
    ⊎ Breaks recorder recorder_audit (first_steps no_flags []) [] o
program_without_environment_example =
    program_without_environment recorder recorder_audit (λ name. none) no_flags api_types
      init-recorder (inl refl) []
