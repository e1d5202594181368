-- ===== src/Base/Decimal.antt =====
-- `strconv.Itoa` on a number that is not negative.
pub mod Parse
use Prim.Native.Nat.{ℕ, zero, suc, ◌+◌, ◌-◌, ◌*◌, ◌/◌, ◌%◌, ◌<◌, compare, Ordering}
use Prim.Native.Char.{code}
use Prim.Native.String.{String, ◌++◌ as ◌<>◌}
use mathlib.Core.Path.{◌≡◌, ap, ◌∙◌, sym}
use mathlib.Core.Bool.{Bool, true, false}
use mathlib.Core.Logic.{inl, inr}
use native.Mathlib.Omega.{arith}
use text.Mathlib.TextLemmas.{cons-append, nil-append}
use provider_operator_exampl.Base.Text.{if◌then◌else◌, Bool-cases}

abbrev pub ltb : ℕ → ℕ → Bool
ltb a b = elim (compare a b) [ Ordering.lt ↦ true | _ ↦ false ]

digit : ℕ → String
digit zero = "0"
digit (suc zero) = "1"
digit (suc (suc zero)) = "2"
digit (suc (suc (suc zero))) = "3"
digit (suc (suc (suc (suc zero)))) = "4"
digit (suc (suc (suc (suc (suc zero))))) = "5"
digit (suc (suc (suc (suc (suc (suc zero)))))) = "6"
digit (suc (suc (suc (suc (suc (suc (suc zero))))))) = "7"
digit (suc (suc (suc (suc (suc (suc (suc (suc zero)))))))) = "8"
digit (suc (suc (suc (suc (suc (suc (suc (suc (suc n))))))))) = "9"

-- The digits of `n`, the last one last; `fuel` bounds their number.
decimal : ℕ → ℕ → String
decimal zero n = ""
decimal (suc fuel) n =
    let more = decimal fuel (n / 10) <> digit (n % 10) in if ltb n 10 then digit n else more

unfoldable pub itoa : ℕ → String
unfolding decimal digit
itoa n = decimal (suc n) n

-- The number that digits stand for, after those read so far.
value : ℕ → String → ℕ
value acc String.[] = acc
value acc (String.◌∷◌ c s) = value (acc * 10 + (code c - 48)) s

value-append : (s t : String) (acc : ℕ) → value acc (s <> t) ≡ value (value acc s) t
unfolding value
value-append String.[] t acc = rw nil-append
value-append (String.◌∷◌ c s) t acc =
    ap (value acc) (cons-append c s t) ∙ value-append s t (acc * 10 + (code c - 48))

value-digit : (d acc : ℕ) → d < 10 → value acc (digit d) ≡ acc * 10 + d
unfolding value digit
value-digit zero acc h = omega arith
value-digit (suc zero) acc h = omega arith
value-digit (suc (suc zero)) acc h = omega arith
value-digit (suc (suc (suc zero))) acc h = omega arith
value-digit (suc (suc (suc (suc zero)))) acc h = omega arith
value-digit (suc (suc (suc (suc (suc zero))))) acc h = omega arith
value-digit (suc (suc (suc (suc (suc (suc zero)))))) acc h = omega arith
value-digit (suc (suc (suc (suc (suc (suc (suc zero))))))) acc h = omega arith
value-digit (suc (suc (suc (suc (suc (suc (suc (suc zero)))))))) acc h = omega arith
value-digit (suc (suc (suc (suc (suc (suc (suc (suc (suc zero))))))))) acc h = omega arith
value-digit (suc (suc (suc (suc (suc (suc (suc (suc (suc (suc n)))))))))) acc h =
    absurd (omega arith)

value-decimal : (fuel n : ℕ) → n < fuel → value 0 (decimal fuel n) ≡ n
unfolding decimal
value-decimal zero n h = absurd (omega arith)
value-decimal (suc fuel) n h = elim (Bool-cases (ltb n 10)) [
  | inl small ↦ rw small (value-digit n 0 (ground arith) ∙ omega arith)
  | inr large ↦ rw large (
      value-append (decimal fuel (n / 10)) (digit (n % 10)) 0
      ∙ (value-digit (n % 10) (value 0 (decimal fuel (n / 10))) (omega arith)
          ∙ (ground (arith, value-decimal fuel (n / 10)))))
]

-- Two numbers with the same digits are equal.
pub itoa_injective : (m n : ℕ) → itoa m ≡ itoa n → m ≡ n
unfolding itoa
itoa_injective m n h =
    sym (value-decimal (suc m) m (omega arith))
    ∙ (ap (value 0) h ∙ value-decimal (suc n) n (omega arith))
