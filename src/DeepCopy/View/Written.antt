-- ===== src/DeepCopy/View/Written.antt =====
-- A cell is allocated, a copy is made behind it, and the copy is written to the cell.
use provider_operator_exampl.Base.{
  ℕ, ◌<◌, [], ◌∷◌, ◌++◌, ◌≡◌, ◌∙◌, sym, ap, arith, length, length-append, get_elem?,
}
use provider_operator_exampl.DeepCopy.{Memory, Struct}
use provider_operator_exampl.DeepCopy.View.{View, SameOn, IsCopy, get-append_gt}

module _ (Cell : Type 0) {S : Struct Cell} (V : View Cell S) (x y : S.Value)
    (m rest m' : Memory Cell) (blank written : Cell) (c : IsCopy Cell V x (m ++ (blank ∷ [])) y m')
    (here : m' ≡ m ++ (blank ∷ rest)) where
  -- The copy leads behind the cell.
  pub written_bounds :
      (a : ℕ) → V.Reaches y m' a → (length m < a) × (a < length (m ++ (written ∷ rest)))
  written_bounds a h =
      let b = c.fresh a h in
      let size : length m' ≡ length (m ++ (blank ∷ rest)) = ap length here in
      (
        omega (arith, b, length-append m (blank ∷ [])),
        omega (arith, b, size, length-append m (blank ∷ rest), length-append m (written ∷ rest)),
      )

  pub same_written : SameOn Cell (V.Reaches y m') m' (m ++ (written ∷ rest))
  same_written a h =
      sym (get-append_gt m rest blank written a (written_bounds a h).0)
      ∙ ap (λ (t : Memory Cell). get_elem? t a) (sym here)
