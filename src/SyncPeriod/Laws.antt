-- ===== src/SyncPeriod/Laws.antt =====
-- Which periods the environment can set.
use Prim.Native.Char.{Char, code}
use provider_operator_exampl.Base.{
  false, ℕ, ◌*◌, ◌%◌, ◌^◌, ◌<◌, ◌≤◌, String, ◌<>◌, ◌-◌, Option, some, ◌≡◌, ◌↔◌, arith, itoa, suc,
}
use provider_operator_exampl.Base.Int.{ℤ, pos, negsuc, signed64}
use provider_operator_exampl.Base.Decimal.Parse.{is_digit, atoi-bad, atoi-minus, atoi-itoa}
use provider_operator_exampl.SyncPeriod.{minute, default_sync_period, get_sync_period}

-- How many minutes from zero.
abbrev pub size : ℤ → ℕ
size (pos n) = n
size (negsuc n) = suc n

-- The decimal text, with a sign if it is negative.
abbrev pub decimal : ℤ → String
decimal (pos n) = itoa n
decimal (negsuc n) = "-" <> itoa (suc n)

-- The minutes as nanoseconds.
abbrev pub in_nanoseconds : ℤ → ℤ
in_nanoseconds (pos n) = pos (n * minute)
in_nanoseconds (negsuc n) = negsuc (suc n * minute - 1)

-- From -2^63 to 2^63 - 1.
abbrev pub FitsInt : ℤ → Type 0
FitsInt (pos n) = n < 2 ^ 63
FitsInt (negsuc n) = n < 2 ^ 63

module _ (lookup_env : String → Option String) where
  get_sync_period-number :
      (n : ℕ)
      → n < 2 ^ 63
      → lookup_env "SYNC_PERIOD_MIN" ≡ some (itoa n)
      → get_sync_period lookup_env ≡ (n * minute) % 2 ^ 64
  get_sync_period-number n fits e =
      let read = atoi-itoa n fits in unfold get_sync_period in ground (arith)

  get_sync_period-minus :
      (n : ℕ)
      → n ≤ 2 ^ 63
      → lookup_env "SYNC_PERIOD_MIN" ≡ some ("-" <> itoa n)
      → get_sync_period lookup_env ≡ (((2 ^ 64 - n) % 2 ^ 64) * minute) % 2 ^ 64
  get_sync_period-minus n fits e =
      let read = atoi-minus n fits in unfold get_sync_period in ground arith

  -- A number of minutes that fits an `int`, negative ones included, sets the period to so many
  -- minutes exactly when it is from -153722867 to 153722867: beyond that the product overflows.
  pub get_sync_period-exact_iff :
      (minutes : ℤ)
      → FitsInt minutes
      → lookup_env "SYNC_PERIOD_MIN" ≡ some (decimal minutes)
      → (signed64 (get_sync_period lookup_env) ≡ in_nanoseconds minutes)
        ↔ (size minutes ≤ 153722867)
  get_sync_period-exact_iff (pos n) fits e =
      rw (get_sync_period-number n fits e) ((λ h. ground arith), (λ h. ground arith))
  get_sync_period-exact_iff (negsuc n) fits e =
      rw (get_sync_period-minus (suc n) (omega arith) e) ((λ h. ground arith), (λ h. ground arith))

  -- A text with a character behind its first that is no digit leaves the period at its default.
  pub get_sync_period-unparsed :
      (d c : Char) (a b : String)
      → is_digit (code c) ≡ false
      → lookup_env "SYNC_PERIOD_MIN" ≡ some (String.◌∷◌ d (a <> String.◌∷◌ c b))
      → get_sync_period lookup_env ≡ default_sync_period
  get_sync_period-unparsed d c a b bad e =
      let unread = atoi-bad c b bad d a in unfold get_sync_period in ground arith
