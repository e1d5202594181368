-- ===== src/SyncPeriod.antt =====
-- GetSyncPeriod of controllers/dbaas/common.go. A `time.Duration` is a number of nanoseconds in 64
-- bits with a sign, modelled as its bit pattern.
pub mod Laws
use provider_operator_exampl.Base.{ℕ, ◌*◌, ◌%◌, ◌^◌, String, Option, none, some}
use provider_operator_exampl.Base.Decimal.Parse.{atoi}

-- time.Minute
abbrev pub minute : ℕ
minute = 60000000000

abbrev pub default_sync_period : ℕ
default_sync_period = minute * 180

-- `os.LookupEnv` is the argument.
unfoldable pub get_sync_period : (String → Option String) → ℕ
unfolding atoi
get_sync_period lookup_env = elim (lookup_env "SYNC_PERIOD_MIN") [
  | none ↦ default_sync_period
  | some sp ↦ elim (atoi sp) [
    | none ↦ default_sync_period
    | some minutes ↦ (minutes * minute) % 2 ^ 64
  ]
]
