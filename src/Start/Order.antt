-- ===== src/Start/Order.antt =====
-- The order in which the operator starts: init and main of main.go.
use mathlib.Core.List.{append_assoc, append-nil}
use provider_operator_exampl.Start.Laws.{main-unset, Runs, ends, stops, goes_on, Run, StopsAt}
use provider_operator_exampl.Start.Calls.{first_steps, Call, Step, Audit}
use provider_operator_exampl.Start.{Toolkit}
use provider_operator_exampl.Base.{
  err, none, Option, String, refl, sym, ◌∙◌, ap, [], ◌∷◌, inr, ◌++◌, inl, map, ◌⊎◌, ◌≡◌, List,
}
use provider_operator_exampl.Start.Program.{no_controller, main, program, CommandLine}
use provider_operator_exampl.Start.Scheme.{init}
use provider_operator_exampl.Registration.Deployments.{read_environment-unset}

module _ (K : Toolkit) (audit : Audit K) where
  -- The calls of steps.
  abbrev pub calls_of : List (Step K.Err) → List Call
  calls_of steps = map (λ s. s.call) steps

  -- A run has made the calls of all the steps and ended as stated.
  pub record Completes (Ends : K.World → Run K → Type 0) (steps : List (Step K.Err)) (w : K.World)
      (o : Run K) : Type 0 where
    pub last_world : K.World
    pub all_made : audit.calls last_world ≡ audit.calls w ++ calls_of steps
    pub well_ended : Ends last_world o

  -- A run has made the calls of the first steps, up to one that failed or panicked, and none
  -- behind it.
  pub record Breaks (steps : List (Step K.Err)) (w : K.World) (o : Run K) : Type 0 where
    pub before : List (Step K.Err)
    pub broken : Step K.Err
    pub after : List (Step K.Err)
    pub is_split : steps ≡ before ++ (broken ∷ after)
    pub last_world : K.World
    pub these_made : audit.calls last_world ≡ audit.calls w ++ calls_of (before ++ (broken ∷ []))
    pub stopped : StopsAt K broken last_world o

  append_step :
      (w w1 : List Call) (c : Call) (cs : List Call) → w1 ≡ w ++ (c ∷ []) → w1 ++ cs ≡ w ++ (c ∷ cs)
  append_step w w1 c cs e = ap (λ t. t ++ cs) e ∙ append_assoc w (c ∷ []) cs

  Runs-split :
      {Ends : K.World → Run K → Type 0} {steps : List (Step K.Err)} {w : K.World} {o : Run K}
      → Runs K audit Ends steps w o
      → Completes Ends steps w o ⊎ Breaks steps w o
  Runs-split (ends {w = w} e) =
      inl (record { last_world = w; all_made = sym (append-nil _); well_ended = e })
  Runs-split (stops {s = s} {steps = steps} w' made stopped) = inr (record {
    before = [];
    broken = s;
    after = steps;
    is_split = refl;
    last_world = w';
    these_made = made;
    stopped = stopped;
  })
  Runs-split (goes_on {s = s} {steps = steps} w' made rest) = elim (Runs-split rest) [
    | inl c ↦ inl (record {
      last_world = c.last_world;
      all_made = c.all_made ∙ append_step _ _ _ _ made;
      well_ended = c.well_ended;
    })
    | inr b ↦ inr (record {
      before = s ∷ b.before;
      broken = b.broken;
      after = b.after;
      is_split = ap (λ t. s ∷ t) b.is_split;
      last_world = b.last_world;
      these_made = b.these_made ∙ append_step _ _ _ _ made;
      stopped = b.stopped;
    })
  ]

  module _ (lookup_env : String → Option String) (flags : CommandLine) (scheme : K.Scheme)
      (made : init K ≡ inr scheme) where
    program-main : (w : K.World) → program K lookup_env flags w ≡ main K lookup_env flags scheme w
    unfolding program
    program-main w = cc

    -- Where the scheme can be made and one of the variables is not set, the operator does not get
    -- beyond the client set: it stops at an earlier step, or exits since the controller of the
    -- registration cannot be made.
    pub program_without_environment :
        (lookup_env "INSTALL_NAMESPACE" ≡ none) ⊎ (lookup_env "OPERATOR_CONDITION_NAME" ≡ none)
        → (w : K.World)
        → let o = program K lookup_env flags w in
          ((text : String) × Completes
              (λ w' o. o ≡ err (no_controller "DBaaSProvider" (K.new_error text)) w')
              (first_steps flags [])
              w
              o)
          ⊎ Breaks (first_steps flags []) w o
    program_without_environment missing w =
        let (text, e) = read_environment-unset lookup_env missing in
        rw (program-main w)
          (elim (Runs-split (main-unset K audit lookup_env flags scheme text e w)) [
            | inl c ↦ inl (text, c)
            | inr b ↦ inr b
          ])
