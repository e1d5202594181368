-- ===== src/Start/Laws.antt =====
-- How a run of main goes the operator, over any toolkit whose world remembers the calls.
use mathlib.Core.Path.{subst}
use provider_operator_exampl.Base.{
  String, Option, none, some, false, List, [], ◌∷◌, ◌++◌, ◌≡◌, refl, ap, ◌∙◌, ◌⊎◌, inl, inr, M,
  Outcome, ok, err, panic, world, proceed,
}
use provider_operator_exampl.Registration.{Operator}
use provider_operator_exampl.Registration.Deployments.{read_environment}
use provider_operator_exampl.Start.{ManagerOptions, deployment, Toolkit, dbaas_provider_reconciler}
use provider_operator_exampl.Inventory.{instance_requests}
use provider_operator_exampl.Start.Setup.{
  setup_dbaas_provider, setup_provider_inventory, setup_provider_connection,
  setup_provider_instance, dbaas_provider_controller,
}
use provider_operator_exampl.Start.Program.{
  CommandLine, or_default, manager_options, Exit, no_controller, exit_on_error, main,
}
use provider_operator_exampl.Start.Calls.{
  wanted_options, steps_from, last_steps, first_steps, completes, Audit, Step,
}

or_default_lem :
    {A : Type 0} (o : Option A) (d : A) → or_default o d ≡ elim o [ none ↦ d | some a ↦ a ]
or_default_lem none d = refl
or_default_lem (some a) d = refl

-- The options that main makes of the flags are those written out.
options_wanted : (flags : CommandLine) → manager_options flags ≡ wanted_options flags
options_wanted flags =
    rw
      (
        or_default_lem flags.metrics_bind_address ":8080",
        or_default_lem flags.health_probe_bind_address ":8081",
        or_default_lem flags.leader_elect false,
      )
      refl

module _ (K : Toolkit) where
  abbrev pub Run : Type 0
  Run = Outcome K.World (Exit K.Err) (Unit {0})

  -- The run has ended at this step: its call failed, or panicked.
  abbrev pub StopsAt : Step K.Err → K.World → Run → Type 0
  StopsAt s w o = ((e : K.Err) × (o ≡ err (s.exit e) w)) ⊎ (o ≡ panic w)

  -- The run has ended well.
  abbrev pub Returned : K.World → Run → Type 0
  Returned w o = o ≡ ok tt w

module _ (K : Toolkit) (audit : Audit K) where
  -- The run makes the calls of the steps in their order, from this world on, up to one at which it
  -- ends; after the last it ends as stated.
  pub data Runs (Ends : K.World → Run K → Type 0)
      : List (Step K.Err) → K.World → Run K → Type 0 where
    ends : {w : K.World} {o : Run K} → Ends w o → Runs Ends [] w o
    stops :
        {s : Step K.Err} {steps : List (Step K.Err)} {w : K.World} {o : Run K} (w' : K.World)
        → audit.calls w' ≡ audit.calls w ++ (s.call ∷ [])
        → StopsAt K s w' o
        → Runs Ends (s ∷ steps) w o
    goes_on :
        {s : Step K.Err} {steps : List (Step K.Err)} {w : K.World} {o : Run K} (w' : K.World)
        → audit.calls w' ≡ audit.calls w ++ (s.call ∷ [])
        → Runs Ends steps w' o
        → Runs Ends (s ∷ steps) w o

  exit_on_error-Runs :
      {Ends : K.World → Run K → Type 0} {steps : List (Step K.Err)} {s : Step K.Err} {A : Type 0}
      {next : A → M K.World (Exit K.Err) (Unit {0})} {w : K.World} (o : Outcome K.World K.Err A)
      → audit.calls (world o) ≡ audit.calls w ++ (s.call ∷ [])
      → ((a : A) (w' : K.World) → Runs Ends steps w' (next a w'))
      → Runs Ends (s ∷ steps) w (proceed (exit_on_error o s.exit) next (λ e w'. err e w'))
  exit_on_error-Runs (ok a w') logged on = goes_on w' logged (on a w')
  exit_on_error-Runs (err e w') logged on = stops w' logged (inl (e, refl))
  exit_on_error-Runs (panic w') logged on = stops w' logged (inr refl)

  exit_on_error-Returned :
      {s : Step K.Err} {w : K.World} (o : Outcome K.World K.Err (Unit {0}))
      → audit.calls (world o) ≡ audit.calls w ++ (s.call ∷ [])
      → Runs (Returned K) (s ∷ []) w (exit_on_error o s.exit)
  exit_on_error-Returned (ok a w') logged = goes_on w' logged (ends refl)
  exit_on_error-Returned (err e w') logged = stops w' logged (inl (e, refl))
  exit_on_error-Returned (panic w') logged = stops w' logged (inr refl)

  module _ (lookup_env : String → Option String) (client : K.Client) (scheme : K.Scheme)
      (clientset : K.Clientset) (mgr : K.Manager) where
    setup_dbaas_provider-set :
        (operator : Operator)
        → read_environment lookup_env ≡ inr operator
        → (w : K.World)
        → audit.calls (world (setup_dbaas_provider K lookup_env client scheme clientset mgr w))
          ≡ audit.calls w ++ (completes (dbaas_provider_controller operator) deployment ∷ [])
    unfolding setup_dbaas_provider
    setup_dbaas_provider-set operator env w =
        let same : setup_dbaas_provider K lookup_env client scheme clientset mgr w
            ≡ K.complete mgr (dbaas_provider_controller operator)
                (dbaas_provider_reconciler client scheme clientset operator) w =
          cc in
        ap (λ o. audit.calls (world o)) same ∙ audit.complete_calls _ _ _ w

    setup_dbaas_provider-unset :
        (text : String)
        → read_environment lookup_env ≡ inl text
        → (w : K.World)
        → setup_dbaas_provider K lookup_env client scheme clientset mgr w ≡ err (K.new_error text) w
    unfolding setup_dbaas_provider
    setup_dbaas_provider-unset text env w = cc

  module _ (lookup_env : String → Option String) (flags : CommandLine) (scheme : K.Scheme) where
    main-Runs_from :
        (operator : Operator)
        → read_environment lookup_env ≡ inr operator
        → (w : K.World)
        → Runs
            (Returned K)
            (steps_from (manager_options flags) (last_steps operator))
            w
            (main K lookup_env flags scheme w)
    unfolding main instance_requests
    main-Runs_from operator env w =
        exit_on_error-Runs (K.get_config_or_die w) (audit.get_config_or_die_calls w) (λ config w1.
          exit_on_error-Runs (K.new_manager config scheme (manager_options flags) w1)
            (audit.new_manager_calls _ _ _ w1)
            (λ mgr w2.
              exit_on_error-Runs (K.new_for_config (K.get_config mgr) w2)
                (audit.new_for_config_calls _ w2)
                (λ clientset w3.
                  exit_on_error-Runs
                    (setup_dbaas_provider K lookup_env (K.get_client mgr) (K.get_scheme mgr)
                      clientset mgr w3)
                    (setup_dbaas_provider-set _ _ _ _ _ operator env w3)
                    (λ _ w4.
                      exit_on_error-Runs
                        (setup_provider_inventory K (K.get_client mgr) (K.get_scheme mgr) mgr w4)
                        (audit.complete_calls _ _ _ w4)
                        (λ _ w5.
                          exit_on_error-Runs
                            (setup_provider_connection K (K.get_client mgr) (K.get_scheme mgr) mgr
                              w5)
                            (audit.complete_calls _ _ _ w5)
                            (λ _ w6.
                              exit_on_error-Runs
                                (setup_provider_instance K (K.get_client mgr) (K.get_scheme mgr) mgr
                                  w6)
                                (audit.complete_calls _ _ _ w6)
                                (λ _ w7.
                                  exit_on_error-Runs (K.add_healthz_check mgr "healthz" w7)
                                    (audit.add_healthz_check_calls _ _ w7)
                                    (λ _ w8.
                                      exit_on_error-Runs (K.add_readyz_check mgr "readyz" w8)
                                        (audit.add_readyz_check_calls _ _ w8)
                                        (λ _ w9.
                                          exit_on_error-Returned (K.start mgr w9)
                                            (audit.start_calls _ w9))))))))))

    pub main-Runs :
        (operator : Operator)
        → read_environment lookup_env ≡ inr operator
        → (w : K.World)
        → Runs
            (Returned K)
            (first_steps flags (last_steps operator))
            w
            (main K lookup_env flags scheme w)
    main-Runs operator env w =
        subst
          (λ (options : ManagerOptions).
            Runs (Returned K) (steps_from options (last_steps operator)) w
              (main K lookup_env flags scheme w))
          (options_wanted flags) (main-Runs_from operator env w)

    main-unset_from :
        (text : String)
        → read_environment lookup_env ≡ inl text
        → (w : K.World)
        → Runs
            (λ w' o. o ≡ err (no_controller "DBaaSProvider" (K.new_error text)) w')
            (steps_from (manager_options flags) [])
            w
            (main K lookup_env flags scheme w)
    unfolding main
    main-unset_from text env w =
        exit_on_error-Runs (K.get_config_or_die w) (audit.get_config_or_die_calls w) (λ config w1.
          exit_on_error-Runs (K.new_manager config scheme (manager_options flags) w1)
            (audit.new_manager_calls _ _ _ w1)
            (λ mgr w2.
              exit_on_error-Runs (K.new_for_config (K.get_config mgr) w2)
                (audit.new_for_config_calls _ w2)
                (λ clientset w3. ends (
                  rw
                    (setup_dbaas_provider-unset lookup_env (K.get_client mgr) (K.get_scheme mgr)
                      clientset mgr text env w3)
                    refl))))

    pub main-unset :
        (text : String)
        → read_environment lookup_env ≡ inl text
        → (w : K.World)
        → Runs
            (λ w' o. o ≡ err (no_controller "DBaaSProvider" (K.new_error text)) w')
            (first_steps flags [])
            w
            (main K lookup_env flags scheme w)
    main-unset text env w =
        subst
          (λ (options : ManagerOptions).
            Runs (λ w' o. o ≡ err (no_controller "DBaaSProvider" (K.new_error text)) w')
              (steps_from options []) w (main K lookup_env flags scheme w))
          (options_wanted flags) (main-unset_from text env w)
