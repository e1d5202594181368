-- ===== src/DeepCopy/Kinds/Plain.antt =====
-- Structs without references are copied as documented.
use mathlib.Core.List.{append-nil}
use provider_operator_exampl.Base.{[], refl, sym}
use provider_operator_exampl.DeepCopy.{plain_struct}
use provider_operator_exampl.DeepCopy.View.{View, Copies}

module _ (Cell A : Type 0) (zero_value : A) where
  abbrev pub plain_view : View Cell (plain_struct Cell A zero_value)
  plain_view = record {
    Contents = A;
    read = λ v m. v;
    Reaches = λ v m a. ⊥;
    read_local = λ v m m' e. refl;
    reaches_local = λ v m m' e a h. h;
  }

  pub plain-Copies : Copies Cell plain_view
  plain-Copies v out m within = record {
    more = [];
    grown = sym (append-nil m);
    same = refl;
    fresh = λ a h. absurd h;
  }
