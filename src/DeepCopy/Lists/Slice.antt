-- ===== src/DeepCopy/Lists/Slice.antt =====
-- The deep copy of the slice that leads to the items.
use mathlib.Core.List.{append_assoc, append-nil}
use provider_operator_exampl.Base.{
  ℕ, ◌<◌, ◌≤◌, ◌⊎◌, inl, inr, List, [], ◌∷◌, ◌++◌, ◌≡◌, ◌∙◌, sym, ap, refl, arith, Option, none,
  some, length, length-append,
}
use provider_operator_exampl.DeepCopy.{
  Memory, Struct, Boxed, items_of, unboxed, items_at, zeros, copy_items, copy_slice,
}
use provider_operator_exampl.DeepCopy.Lists.{
  ItemsReach, read_items, items_view, items_read_local, ItemsReach-local, copy_items-IsCopy,
}
use provider_operator_exampl.DeepCopy.View.{
  View, SameOn, IsWithin, IsCopy, Copies, IsWithin-grown, read-append, get-append_length,
  set-append_length,
}
use provider_operator_exampl.DeepCopy.View.Written.{same_written, written_bounds}

module _ (Cell : Type 0) {Item : Struct Cell} (V : View Cell Item)
    (B : Boxed Cell (List Item.Value)) where
  abbrev pub slice_struct : Struct Cell
  slice_struct = record {
    Value = Option ℕ;
    zero_value = none;
    deep_copy_into = λ items slot m. copy_slice Cell Item B items m;
  }

  -- The array, and what its items lead to.
  abbrev pub SliceReaches : Option ℕ → Memory Cell → ℕ → Type 0
  SliceReaches none m a = ⊥
  SliceReaches (some p) m a = (a ≡ p) ⊎ ItemsReach Cell V (items_at Cell Item B p m) m a

  abbrev pub read_slice : Option ℕ → Memory Cell → Option (List V.Contents)
  read_slice none m = none
  read_slice (some p) m = some (read_items Cell V (items_at Cell Item B p m) m)

  module _ (p : ℕ) (m m' : Memory Cell) (e : SameOn Cell (SliceReaches (some p) m) m m') where
    same_array : items_at Cell Item B p m' ≡ items_at Cell Item B p m
    same_array = ap (λ (o : Option Cell). items_of Cell Item (unboxed Cell B o)) (e p (inl refl))

    same_items : SameOn Cell (ItemsReach Cell V (items_at Cell Item B p m) m) m m'
    same_items a h = e a (inr h)

  pub slice_read_local :
      (items : Option ℕ) (m m' : Memory Cell)
      → SameOn Cell (SliceReaches items m) m m'
      → read_slice items m' ≡ read_slice items m
  slice_read_local none m m' e = refl
  slice_read_local (some p) m m' e =
      rw (same_array p m m' e)
        (ap some (items_read_local Cell V (items_at Cell Item B p m) m m' (same_items p m m' e)))

  pub SliceReaches-local :
      (items : Option ℕ) (m m' : Memory Cell)
      → SameOn Cell (SliceReaches items m) m m'
      → (a : ℕ) → SliceReaches items m' a
      → SliceReaches items m a
  SliceReaches-local none m m' e a h = elim h [ ]
  SliceReaches-local (some p) m m' e a (inl h) = inl h
  SliceReaches-local (some p) m m' e a (inr h) = inr (
      ItemsReach-local Cell V (items_at Cell Item B p m) m m' (same_items p m m' e) a
        (rw (same_array p m m' e) at h))

  abbrev pub slice_view : View Cell slice_struct
  slice_view = record {
    Contents = Option (List V.Contents);
    read = read_slice;
    Reaches = SliceReaches;
    read_local = slice_read_local;
    reaches_local = SliceReaches-local;
  }

  -- Writing the copied items into the new array.
  module _ (xs ys : List Item.Value) (m rest m' : Memory Cell) (blank : Cell)
      (c : IsCopy Cell (items_view Cell V) xs (m ++ (blank ∷ [])) ys m')
      (here : m' ≡ m ++ (blank ∷ rest)) where
    abbrev filled : Memory Cell
    filled = m ++ (B.box ys ∷ rest)

    same_filled : SameOn Cell (ItemsReach Cell V ys m') m' filled
    same_filled = same_written Cell (items_view Cell V) xs ys m rest m' blank (B.box ys) c here

    filled_array : items_at Cell Item B (length m) filled ≡ ys
    filled_array =
        ap (λ (o : Option Cell). items_of Cell Item (unboxed Cell B o))
          (get-append_length m rest (B.box ys))
        ∙ ap (items_of Cell Item) (B.unbox-box ys)

    fresh_slice :
        (a : ℕ) → SliceReaches (some (length m)) filled a → (length m ≤ a) × (a < length filled)
    fresh_slice a (inl e) = rw e (omega (arith, length-append m (B.box ys ∷ rest)))
    fresh_slice a (inr h) =
        let b =
          written_bounds Cell (items_view Cell V) xs ys m rest m' blank (B.box ys) c here a
            (ItemsReach-local Cell V ys m' filled same_filled a (rw filled_array at h)) in
        omega (arith, b)

    read_filled :
        read_slice (some (length m)) filled ≡ some (read_items Cell V xs (m ++ (blank ∷ [])))
    read_filled =
        rw filled_array (ap some (items_read_local Cell V ys m' filled same_filled ∙ c.same))

  -- The deep copy of a slice is one, where those of the items are.
  pub copy_slice-Copies : Copies Cell V → Copies Cell slice_view
  unfolding copy_slice
  copy_slice-Copies copies none slot m within = record {
    more = [];
    grown = sym (append-nil m);
    same = refl;
    fresh = λ a h. absurd h;
  }
  copy_slice-Copies copies (some p) slot m within =
      let xs : List Item.Value = items_at Cell Item B p m in
      let blank : Cell = B.box (zeros Cell Item xs) in
      let in_items : IsWithin Cell (items_view Cell V) xs m = λ a h. within a (inr h) in
      let m₀ : Memory Cell = m ++ (blank ∷ []) in
      let c =
        copy_items-IsCopy Cell V copies xs m₀
          (IsWithin-grown Cell (items_view Cell V) xs m m₀ (blank ∷ []) in_items refl) in
      let ys : List Item.Value = (copy_items Cell Item xs (zeros Cell Item xs) m₀).0 in
      let m₁ : Memory Cell = (copy_items Cell Item xs (zeros Cell Item xs) m₀).1 in
      let here : m₁ ≡ m ++ (blank ∷ c.more) = c.grown ∙ append_assoc m (blank ∷ []) c.more in
      rw (here, set-append_length m c.more blank (B.box ys))
        record {
          more = B.box ys ∷ c.more;
          grown = refl;
          same =
              read_filled xs ys m c.more m₁ blank c here
              ∙ ap some (read-append Cell (items_view Cell V) xs m (blank ∷ []) in_items);
          fresh = fresh_slice xs ys m c.more m₁ blank c here;
        }
