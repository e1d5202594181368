-- ===== src/Base/Decimal/Parse.antt =====
-- `strconv.Atoi` where `int` has 64 bits. An `int` is its bit pattern, a number below 2 ^ 64.
use Prim.Native.Nat.{compare, Ordering, ℕ, zero, suc, ◌+◌, ◌-◌, ◌*◌, ◌/◌, ◌%◌, ◌^◌, ◌<◌, ◌≤◌}
use Prim.Native.Char.{Char, code}
use Prim.Native.String.{String, ◌++◌ as ◌<>◌}
use mathlib.Core.Path.{◌≡◌, refl, ap, ◌∙◌}
use mathlib.Core.Bool.{Bool, true, false}
use mathlib.Core.Option.{Option, none, some}
use mathlib.Core.Logic.{inl, inr}
use native.Mathlib.Omega.{arith}
use text.Mathlib.TextLemmas.{cons-append, nil-append, append_assoc, append-nil}
use provider_operator_exampl.Base.Text.{first_code, if◌then◌else◌, Bool-cases}
use provider_operator_exampl.Base.Decimal.{ltb, digit, decimal, itoa}

infix 50 ◌==◌
abbrev pub ◌==◌ : ℕ → ℕ → Bool
a == b = elim (compare a b) [ Ordering.eq ↦ true | _ ↦ false ]

abbrev pub is_digit : ℕ → Bool
is_digit c = if ltb c b'0' then false else if ltb b'9' c then false else true

-- The number that digits stand for, after those read so far; `none` at any other character.
pub digits : ℕ → String → Option ℕ
digits acc String.[] = some acc
digits acc (String.◌∷◌ c s) =
    let rest = digits (acc * 10 + (code c - b'0')) s in if is_digit (code c) then rest else none

-- `ParseUint` without its bound: at least one digit.
pub magnitude : String → Option ℕ
magnitude String.[] = none
magnitude (String.◌∷◌ c s) = digits 0 (String.◌∷◌ c s)

-- A sign is read from the front.
pub split_sign : String → Bool × String
split_sign String.[] = (false, String.[])
split_sign (String.◌∷◌ c s) =
    if code c == b'+'
    then (false, s)
    else if code c == b'-'
    then (true, s)
    else (false, String.◌∷◌ c s)

-- The pattern of the number, if it is in the range of an `int`.
abbrev pub in_range : Bool → ℕ → Option ℕ
in_range false n = if ltb n (2 ^ 63) then some n else none
in_range true n = if ltb (2 ^ 63) n then none else some ((2 ^ 64 - n) % 2 ^ 64)

read_signed : Bool × String → Option ℕ
unfolding digits magnitude
read_signed (negative, rest) = elim (magnitude rest) [ none ↦ none | some n ↦ in_range negative n ]

unfoldable pub atoi : String → Option ℕ
unfolding split_sign read_signed
atoi s = read_signed (split_sign s)

module _ (t : String) where
  digits-digit : (d acc : ℕ) → d < 10 → digits acc (digit d <> t) ≡ digits (acc * 10 + d) t
  unfolding digits digit
  digits-digit zero acc h = rw (cons-append, nil-append)
  digits-digit (suc zero) acc h = rw (cons-append, nil-append)
  digits-digit (suc (suc zero)) acc h = rw (cons-append, nil-append)
  digits-digit (suc (suc (suc zero))) acc h = rw (cons-append, nil-append)
  digits-digit (suc (suc (suc (suc zero)))) acc h = rw (cons-append, nil-append)
  digits-digit (suc (suc (suc (suc (suc zero))))) acc h = rw (cons-append, nil-append)
  digits-digit (suc (suc (suc (suc (suc (suc zero)))))) acc h = rw (cons-append, nil-append)
  digits-digit (suc (suc (suc (suc (suc (suc (suc zero))))))) acc h = rw (cons-append, nil-append)
  digits-digit (suc (suc (suc (suc (suc (suc (suc (suc zero)))))))) acc h =
      rw (cons-append, nil-append)
  digits-digit (suc (suc (suc (suc (suc (suc (suc (suc (suc zero))))))))) acc h =
      rw (cons-append, nil-append)
  digits-digit (suc (suc (suc (suc (suc (suc (suc (suc (suc (suc n)))))))))) acc h =
      absurd (omega arith)

-- Reading a number that was printed, with more text behind it.
digits-decimal : (fuel n : ℕ) (t : String) → n < fuel → digits 0 (decimal fuel n <> t) ≡ digits n t
unfolding decimal
digits-decimal zero n t h = absurd (omega arith)
digits-decimal (suc fuel) n t h = elim (Bool-cases (ltb n 10)) [
  | inl small ↦ rw small (digits-digit t n 0 (ground arith) ∙ ap (λ m. digits m t) (omega arith))
  | inr large ↦
      rw (large, append_assoc)
        (digits-decimal fuel (n / 10) (digit (n % 10) <> t) (ground arith)
          ∙ (digits-digit t (n % 10) (n / 10) (omega arith) ∙ ap (λ m. digits m t) (omega arith)))
]

first_code-digit : (d : ℕ) (t : String) → d < 10 → b'0' ≤ first_code (digit d <> t)
unfolding digit
first_code-digit zero t h = rw cons-append (omega arith)
first_code-digit (suc zero) t h = rw cons-append (omega arith)
first_code-digit (suc (suc zero)) t h = rw cons-append (omega arith)
first_code-digit (suc (suc (suc zero))) t h = rw cons-append (omega arith)
first_code-digit (suc (suc (suc (suc zero)))) t h = rw cons-append (omega arith)
first_code-digit (suc (suc (suc (suc (suc zero))))) t h = rw cons-append (omega arith)
first_code-digit (suc (suc (suc (suc (suc (suc zero)))))) t h = rw cons-append (omega arith)
first_code-digit (suc (suc (suc (suc (suc (suc (suc zero))))))) t h = rw cons-append (omega arith)
first_code-digit (suc (suc (suc (suc (suc (suc (suc (suc zero)))))))) t h =
    rw cons-append (omega arith)
first_code-digit (suc (suc (suc (suc (suc (suc (suc (suc (suc zero))))))))) t h =
    rw cons-append (omega arith)
first_code-digit (suc (suc (suc (suc (suc (suc (suc (suc (suc (suc n)))))))))) t h =
    absurd (omega arith)

first_code-decimal : (fuel n : ℕ) (t : String) → n < fuel → b'0' ≤ first_code (decimal fuel n <> t)
unfolding decimal
first_code-decimal zero n t h = absurd (omega arith)
first_code-decimal (suc fuel) n t h = elim (Bool-cases (ltb n 10)) [
  | inl small ↦ rw small (first_code-digit n t (ground arith))
  | inr large ↦
      rw (large, append_assoc)
        (first_code-decimal fuel (n / 10) (digit (n % 10) <> t) (ground arith))
]

split_sign-digit : (s : String) → b'0' ≤ first_code s → split_sign s ≡ (false, s)
unfolding split_sign
split_sign-digit String.[] h = absurd (omega arith)
split_sign-digit (String.◌∷◌ c s) h = ground arith

magnitude-digits : (s : String) → b'0' ≤ first_code s → magnitude s ≡ digits 0 s
unfolding magnitude
magnitude-digits String.[] h = absurd (omega arith)
magnitude-digits (String.◌∷◌ c s) h = refl

first_code-itoa : (n : ℕ) → b'0' ≤ first_code (itoa n)
unfolding itoa
first_code-itoa n = rw append-nil at (first_code-decimal (suc n) n "" (omega arith))

magnitude-itoa : (n : ℕ) → magnitude (itoa n) ≡ some n
unfolding itoa digits
magnitude-itoa n =
    let whole : decimal (suc n) n <> "" ≡ decimal (suc n) n = append-nil (decimal (suc n) n) in
    magnitude-digits (decimal (suc n) n) (first_code-itoa n)
    ∙ (rw whole at (digits-decimal (suc n) n "" (omega arith)))

read_signed-itoa : (negative : Bool) (n : ℕ) → read_signed (negative, itoa n) ≡ in_range negative n
unfolding read_signed
read_signed-itoa negative n = rw (magnitude-itoa n, read_signed)

-- A number that was printed is read back, if it fits.
pub atoi-itoa : (n : ℕ) → n < 2 ^ 63 → atoi (itoa n) ≡ some n
atoi-itoa n h =
    unfold atoi in
    ap read_signed (split_sign-digit (itoa n) (first_code-itoa n))
    ∙ (read_signed-itoa false n ∙ ground arith)

-- With a minus sign before it, it is read as the pattern of its negation, if that fits.
pub atoi-minus : (n : ℕ) → n ≤ 2 ^ 63 → atoi ("-" <> itoa n) ≡ some ((2 ^ 64 - n) % 2 ^ 64)
atoi-minus n h =
    unfold atoi split_sign in rw (cons-append, nil-append) (read_signed-itoa true n ∙ ground arith)

module _ (c : Char) (b : String) (bad : is_digit (code c) ≡ false) where
  digits-bad : (a : String) (acc : ℕ) → digits acc (a <> String.◌∷◌ c b) ≡ none
  unfolding digits
  digits-bad String.[] acc = rw nil-append (ground arith)
  digits-bad (String.◌∷◌ d a) acc =
      rw cons-append (ground (arith, digits-bad a (acc * 10 + (code d - b'0'))))

  magnitude-bad : (a : String) → magnitude (a <> String.◌∷◌ c b) ≡ none
  magnitude-bad String.[] =
      rw nil-append (unfold magnitude in rw nil-append at (digits-bad String.[] 0))
  magnitude-bad (String.◌∷◌ d a) =
      rw cons-append (unfold magnitude in rw cons-append at (digits-bad (String.◌∷◌ d a) 0))

  read_signed-bad :
      (negative : Bool) (a : String) → read_signed (negative, a <> String.◌∷◌ c b) ≡ none
  unfolding read_signed
  read_signed-bad negative a = rw (magnitude-bad a, read_signed)

  -- A character that is no digit, anywhere behind the first, is an error.
  pub atoi-bad : (d : Char) (a : String) → atoi (String.◌∷◌ d (a <> String.◌∷◌ c b)) ≡ none
  unfolding atoi split_sign
  atoi-bad d a = ground (
    arith,
    read_signed-bad false a,
    read_signed-bad true a,
    rw cons-append at (read_signed-bad false (String.◌∷◌ d a)),
  )
