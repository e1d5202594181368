-- ===== src/DeepCopy/Lists.antt =====
-- The deep copy of the items of a list, which stand in an array, and of the slice that leads to it.
pub mod Slice
pub mod Whole
use mathlib.Core.List.{append_assoc, append-nil}
use provider_operator_exampl.Base.{
  ℕ, ◌⊎◌, inl, inr, List, [], ◌∷◌, ◌++◌, ◌≡◌, ◌∙◌, sym, refl, arith, Option, none, some, length,
  length-append, get_elem?, set, ◌≤◌, ◌<◌,
}
use provider_operator_exampl.DeepCopy.{
  Memory, Struct, Boxed, deref, items_at, zeros, copy_items, copy_slice,
}
use provider_operator_exampl.DeepCopy.View.{
  View, SameOn, IsWithin, IsCopy, Copies, IsCopy-append, IsWithin-grown, get-append_lt,
  get-append_gt, get-append_length, set-append_length,
}

module _ (Cell : Type 0) {Item : Struct Cell} (V : View Cell Item) where
  abbrev pub items_struct : Struct Cell
  items_struct = record {
    Value = List Item.Value;
    zero_value = [];
    deep_copy_into = λ xs slots m. copy_items Cell Item xs (zeros Cell Item xs) m;
  }

  abbrev pub ItemsReach : List Item.Value → Memory Cell → ℕ → Type 0
  ItemsReach [] m a = ⊥
  ItemsReach (x ∷ xs) m a = V.Reaches x m a ⊎ ItemsReach xs m a

  abbrev pub read_items : List Item.Value → Memory Cell → List V.Contents
  read_items [] m = []
  read_items (x ∷ xs) m = V.read x m ∷ read_items xs m

  pub items_read_local :
      (xs : List Item.Value) (m m' : Memory Cell)
      → SameOn Cell (ItemsReach xs m) m m'
      → read_items xs m' ≡ read_items xs m
  items_read_local [] m m' e = refl
  items_read_local (x ∷ xs) m m' e =
      rw (V.read_local x m m' (λ a h. e a (inl h)), items_read_local xs m m' (λ a h. e a (inr h)))
        refl

  pub ItemsReach-local :
      (xs : List Item.Value) (m m' : Memory Cell)
      → SameOn Cell (ItemsReach xs m) m m'
      → (a : ℕ) → ItemsReach xs m' a
      → ItemsReach xs m a
  ItemsReach-local [] m m' e a h = elim h [ ]
  ItemsReach-local (x ∷ xs) m m' e a (inl h) = inl (V.reaches_local x m m' (λ b k. e b (inl k)) a h)
  ItemsReach-local (x ∷ xs) m m' e a (inr h) =
      inr (ItemsReach-local xs m m' (λ b k. e b (inr k)) a h)

  abbrev pub items_view : View Cell items_struct
  items_view = record {
    Contents = List V.Contents;
    read = read_items;
    Reaches = ItemsReach;
    read_local = items_read_local;
    reaches_local = ItemsReach-local;
  }

  module _ (x y : Item.Value) (xs ys : List Item.Value) (m m' : Memory Cell)
      (first : IsCopy Cell V x m y m') (rest : IsCopy Cell items_view xs m ys m') where
    fresh_items : (a : ℕ) → ItemsReach (y ∷ ys) m' a → (length m ≤ a) × (a < length m')
    fresh_items a (inl h) = first.fresh a h
    fresh_items a (inr h) = rest.fresh a h

    cons-IsCopy : IsCopy Cell items_view (x ∷ xs) m (y ∷ ys) m'
    cons-IsCopy = record {
      more = first.more;
      grown = first.grown;
      same = rw (first.same, rest.same) refl;
      fresh = fresh_items;
    }

  -- The loop makes a copy of all items.
  pub copy_items-IsCopy :
      Copies Cell V
      → (xs : List Item.Value) (m : Memory Cell) → IsWithin Cell items_view xs m
      → IsCopy Cell items_view xs m
          (copy_items Cell Item xs (zeros Cell Item xs) m).0
          (copy_items Cell Item xs (zeros Cell Item xs) m).1
  unfolding copy_items
  copy_items-IsCopy copies [] m within = record {
    more = [];
    grown = sym (append-nil m);
    same = refl;
    fresh = λ a h. absurd h;
  }
  copy_items-IsCopy copies (x ∷ xs) m within =
      let in_first : IsWithin Cell V x m = λ a h. within a (inl h) in
      let in_rest : IsWithin Cell items_view xs m = λ a h. within a (inr h) in
      let m₁ : Memory Cell = (Item.deep_copy_into x Item.zero_value m).1 in
      let c₁ = copies x Item.zero_value m in_first in
      let c₂ =
        copy_items-IsCopy copies xs m₁
          (IsWithin-grown Cell items_view xs m m₁ c₁.more in_rest c₁.grown) in
      let m₂ : Memory Cell = (copy_items Cell Item xs (zeros Cell Item xs) m₁).1 in
      cons-IsCopy x _ xs _ m m₂
        (IsCopy-append Cell V x _ m m m₁ m₂ [] c₂.more in_first (sym (append-nil m)) c₂.grown c₁)
        (IsCopy-append Cell items_view xs _ m m₁ m₂ m₂ c₁.more [] in_rest c₁.grown
          (sym (append-nil m₂)) c₂)
