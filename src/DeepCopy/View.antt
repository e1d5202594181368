-- ===== src/DeepCopy/View.antt =====
-- What can be read through a value, which cells it leads to, and what a deep copy is.
pub mod Written
use mathlib.Core.List.{append_assoc, append-nil}
use provider_operator_exampl.Base.{
  ℕ, ◌+◌, suc, zero, ◌<◌, ◌≤◌, List, [], ◌∷◌, ◌++◌, length, get_elem?, length-append, set, some,
  ◌≡◌, ◌∙◌, refl, sym, arith, ap,
}
use provider_operator_exampl.DeepCopy.{Memory, Struct}

module _ {A : Type 0} where
  pub get-append_lt :
      (xs ys : List A) (i : ℕ) → i < length xs → get_elem? (xs ++ ys) i ≡ get_elem? xs i
  get-append_lt [] ys i h = absurd (omega arith)
  get-append_lt (x ∷ xs) ys zero h = refl
  get-append_lt (x ∷ xs) ys (suc i) h = get-append_lt xs ys i (omega arith)

  pub get-lt : (xs : List A) (i : ℕ) (x : A) → get_elem? xs i ≡ some x → i < length xs
  get-lt [] i x e = absurd (ground arith)
  get-lt (y ∷ xs) zero x e = omega arith
  get-lt (y ∷ xs) (suc i) x e = omega (arith, get-lt xs i x e)

  -- A write to the cell behind `xs`.
  pub set-append_length :
      (xs ys : List A) (x y : A) → set (xs ++ (x ∷ ys)) (length xs) y ≡ xs ++ (y ∷ ys)
  set-append_length [] ys x y = refl
  set-append_length (z ∷ xs) ys x y = ap (λ t. z ∷ t) (set-append_length xs ys x y)

  pub get-append_length : (xs ys : List A) (x : A) → get_elem? (xs ++ (x ∷ ys)) (length xs) ≡ some x
  get-append_length [] ys x = refl
  get-append_length (z ∷ xs) ys x = get-append_length xs ys x

  -- The cells behind `xs` and `x` do not depend on `x`.
  pub get-append_gt :
      (xs ys : List A) (x y : A) (i : ℕ)
      → length xs < i
      → get_elem? (xs ++ (x ∷ ys)) i ≡ get_elem? (xs ++ (y ∷ ys)) i
  get-append_gt [] ys x y zero h = absurd (omega arith)
  get-append_gt [] ys x y (suc i) h = refl
  get-append_gt (z ∷ xs) ys x y zero h = absurd (omega arith)
  get-append_gt (z ∷ xs) ys x y (suc i) h = get-append_gt xs ys x y i (omega arith)

module _ (Cell : Type 0) where
  -- Both memories hold the same at the addresses that P picks.
  abbrev pub SameOn : (ℕ → Type 0) → Memory Cell → Memory Cell → Type 0
  SameOn P m m' = (a : ℕ) → P a → get_elem? m' a ≡ get_elem? m a

  -- What can be read through a value of a struct depends only on the cells that it leads to.
  pub record View (S : Struct Cell) : Type 1 where
    pub Contents : Type 0
    pub read : S.Value → Memory Cell → Contents
    pub Reaches : S.Value → Memory Cell → ℕ → Type 0
    pub read_local :
        (v : S.Value) (m m' : Memory Cell) → SameOn (Reaches v m) m m' → read v m' ≡ read v m
    pub reaches_local :
        (v : S.Value) (m m' : Memory Cell)
        → SameOn (Reaches v m) m m'
        → (a : ℕ) → Reaches v m' a
        → Reaches v m a

  module _ {S : Struct Cell} (V : View S) where
    -- All that the value leads to is there.
    abbrev pub IsWithin : S.Value → Memory Cell → Type 0
    IsWithin v m = (a : ℕ) → V.Reaches v m a → a < length m

    -- In the grown memory `m'` the value `v'` reads as `v` did before, and leads to new cells only.
    pub record IsCopy (v : S.Value) (m : Memory Cell) (v' : S.Value) (m' : Memory Cell)
        : Type 0 where
      pub more : Memory Cell
      pub grown : m' ≡ m ++ more
      pub same : V.read v' m' ≡ V.read v m
      pub fresh : (a : ℕ) → V.Reaches v' m' a → (length m ≤ a) × (a < length m')

    -- What its documentation promises of DeepCopyInto.
    abbrev pub Copies : Type 0
    Copies =
        (v out : S.Value) (m : Memory Cell)
        → IsWithin v m
        → IsCopy v m (S.deep_copy_into v out m).0 (S.deep_copy_into v out m).1

    module _ (v : S.Value) (m more : Memory Cell) (within : IsWithin v m) where
      -- Memory that is added does not change what can be read through the value.
      same-append : SameOn (V.Reaches v m) m (m ++ more)
      same-append a r = get-append_lt m more a (within a r)

      pub read-append : V.read v (m ++ more) ≡ V.read v m
      read-append = V.read_local v m (m ++ more) same-append

      pub reaches-append : (a : ℕ) → V.Reaches v (m ++ more) a → V.Reaches v m a
      reaches-append = V.reaches_local v m (m ++ more) same-append

      pub IsWithin-append : IsWithin v (m ++ more)
      IsWithin-append a r = omega (arith, within a (reaches-append a r), length-append m more)

    -- A copy is still one when memory has been added before it was made and after.
    pub IsCopy-append :
        (v v' : S.Value) (m m₁ m₂ m' before behind : Memory Cell)
        → IsWithin v m
        → m₁ ≡ m ++ before
        → m' ≡ m₂ ++ behind
        → IsCopy v m₁ v' m₂
        → IsCopy v m v' m'
    IsCopy-append v v' m m₁ m₂ m' before behind within e₁ e₂ c =
        let inside : IsWithin v' m₂ = λ a r. (c.fresh a r).1 in
        let size : length m₁ ≡ length m + length before = rw e₁ (length-append m before) in
        record {
          more = before ++ (c.more ++ behind);
          grown = e₂ ∙ rw (c.grown, e₁, append_assoc, append_assoc) refl;
          same =
              rw e₂ (read-append v' m₂ behind inside)
              ∙ (c.same ∙ rw e₁ (read-append v m before within));
          fresh = λ a r.
              let r' = reaches-append v' m₂ behind inside a (rw e₂ at r) in
              let bounds = c.fresh a r' in
              (omega (arith, bounds), rw e₂ (omega (arith, bounds, length-append m₂ behind)));
        }

    pub IsWithin-grown :
        (v : S.Value) (m m' more : Memory Cell) → IsWithin v m → m' ≡ m ++ more → IsWithin v m'
    IsWithin-grown v m m' more within e = rw e (IsWithin-append v m more within)
