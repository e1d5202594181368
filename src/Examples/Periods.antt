-- ===== src/Examples/Periods.antt =====
-- The sync period at concrete environments.
use provider_operator_exampl.Base.{
  none, ◌==◌, String-dec, if◌then◌else◌, String, Option, some, ◌≡◌, ◌↔◌, ◌≤◌, refl, arith,
}
use provider_operator_exampl.Base.Int.{negsuc, signed64}
use provider_operator_exampl.SyncPeriod.{get_sync_period}
use provider_operator_exampl.SyncPeriod.Laws.{get_sync_period-exact_iff, decimal, in_nanoseconds}

-- An environment in which the variable has this value.
abbrev environment : String → String → Option String
environment value name = if name == "SYNC_PERIOD_MIN" then some value else none

environment_minus : environment (decimal (negsuc 4)) "SYNC_PERIOD_MIN" ≡ some (decimal (negsuc 4))
unfolding String-dec
environment_minus = refl

get_sync_period-exact_iff_example :
    (signed64 (get_sync_period (environment (decimal (negsuc 4)))) ≡ in_nanoseconds (negsuc 4))
    ↔ (5 ≤ 153722867)
get_sync_period-exact_iff_example =
    get_sync_period-exact_iff (environment (decimal (negsuc 4))) (negsuc 4) (omega arith)
      environment_minus
