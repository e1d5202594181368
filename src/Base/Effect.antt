-- ===== src/Base/Effect.antt =====
-- Go code that reads and writes the outside world: a call takes the world that it finds, and
-- returns a value or an error in the world that it leaves, or panics there.
use mathlib.Core.Path.{◌≡◌, refl}

pub data Outcome {ℓ} (W E : Type 0) (A : Type ℓ) : Type ℓ where
  ok : A → W → Outcome W E A
  err : E → W → Outcome W E A
  panic : W → Outcome W E A

abbrev pub M : Type 0 → Type 0 → Type 0 → Type 0
M W E A = W → Outcome W E A

module _ {W E : Type 0} where
  abbrev pub return : {A : Type 0} → A → M W E A
  return a w = ok a w

  abbrev pub throw : {A : Type 0} → E → M W E A
  throw e w = err e w

  -- The world that an outcome leaves.
  abbrev pub world {ℓ} : {A : Type ℓ} → Outcome W E A → W
  world (ok _ w) = w
  world (err _ w) = w
  world (panic w) = w

module _ {W E A B : Type 0} where
  abbrev pub proceed : Outcome W E A → (A → M W E B) → (E → M W E B) → Outcome W E B
  proceed (ok a w) next caught = next a w
  proceed (err e w) next caught = caught e w
  proceed (panic w) next caught = panic w

  -- `a, err := m; if err != nil { caught }; next`
  abbrev pub handle : M W E A → (E → M W E B) → (A → M W E B) → M W E B
  handle m caught next w = proceed (m w) next caught

  -- `if err != nil { return nil, err }` after the call.
  infixl 5 ◌>>=◌ ◌>>◌
  abbrev pub ◌>>=◌ : M W E A → (A → M W E B) → M W E B
  ◌>>=◌ m next w = proceed (m w) next (λ e w'. err e w')

  abbrev pub ◌>>◌ : M W E A → M W E B → M W E B
  ◌>>◌ m next = ◌>>=◌ m (λ _. next)

-- To split on the outcome of a call and keep the equation.
pub data Ran {W E A : Type 0} (o : Outcome W E A) : Type 0 where
  answered : (a : A) (w : W) → o ≡ ok a w → Ran o
  refused : (e : E) (w : W) → o ≡ err e w → Ran o
  panicked : (w : W) → o ≡ panic w → Ran o

pub ran : {W E A : Type 0} (o : Outcome W E A) → Ran o
ran (ok a w) = answered a w refl
ran (err e w) = refused e w refl
ran (panic w) = panicked w refl
