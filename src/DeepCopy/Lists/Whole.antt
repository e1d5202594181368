-- ===== src/DeepCopy/Lists/Whole.antt =====
-- The deep copy of a list, from those of its metadata and its slice.
use mathlib.Core.List.{append-nil}
use provider_operator_exampl.Base.{
  ℕ, ◌<◌, ◌≤◌, ◌⊎◌, inl, inr, List, [], ◌≡◌, sym, refl, Option, length,
}
use provider_operator_exampl.DeepCopy.{
  Memory, Struct, Boxed, TypeMeta, ResourceList, list_struct, list_deep_copy_into, copy_slice,
}
use provider_operator_exampl.DeepCopy.Lists.Slice.{
  SliceReaches, read_slice, slice_view, slice_read_local, SliceReaches-local, copy_slice-Copies,
}
use provider_operator_exampl.DeepCopy.View.{
  View, SameOn, IsWithin, IsCopy, Copies, IsCopy-append, IsWithin-grown,
}

module _ (Cell : Type 0) {Meta Item : Struct Cell} (VM : View Cell Meta) (V : View Cell Item)
    (B : Boxed Cell (List Item.Value)) where
  abbrev pub ListReaches : ResourceList Meta.Value → Memory Cell → ℕ → Type 0
  ListReaches l m a = VM.Reaches l.list_meta m a ⊎ SliceReaches Cell V B l.items m a

  abbrev pub read_list :
      ResourceList Meta.Value → Memory Cell → TypeMeta × VM.Contents × Option (List V.Contents)
  read_list l m = (l.type_meta, VM.read l.list_meta m, read_slice Cell V B l.items m)

  module _ (l : ResourceList Meta.Value) (m m' : Memory Cell)
      (e : SameOn Cell (ListReaches l m) m m') where
    pub list_read_local : read_list l m' ≡ read_list l m
    list_read_local =
        rw
          (
            VM.read_local l.list_meta m m' (λ a h. e a (inl h)),
            slice_read_local Cell V B l.items m m' (λ a h. e a (inr h)),
          )
          refl

    pub ListReaches-local : (a : ℕ) → ListReaches l m' a → ListReaches l m a
    ListReaches-local a (inl h) = inl (VM.reaches_local l.list_meta m m' (λ b k. e b (inl k)) a h)
    ListReaches-local a (inr h) =
        inr (SliceReaches-local Cell V B l.items m m' (λ b k. e b (inr k)) a h)

  abbrev pub list_view : View Cell (list_struct Cell Meta Item B)
  list_view = record {
    Contents = TypeMeta × VM.Contents × Option (List V.Contents);
    read = read_list;
    Reaches = ListReaches;
    read_local = list_read_local;
    reaches_local = ListReaches-local;
  }

  module _ (l k : ResourceList Meta.Value) (m m' : Memory Cell)
      (metas : IsCopy Cell VM l.list_meta m k.list_meta m')
      (slices : IsCopy Cell (slice_view Cell V B) l.items m k.items m') where
    fresh_parts : (a : ℕ) → ListReaches k m' a → (length m ≤ a) × (a < length m')
    fresh_parts a (inl h) = metas.fresh a h
    fresh_parts a (inr h) = slices.fresh a h

    parts-IsCopy : k.type_meta ≡ l.type_meta → IsCopy Cell list_view l m k m'
    parts-IsCopy e = record {
      more = metas.more;
      grown = metas.grown;
      same = rw (e, metas.same, slices.same) refl;
      fresh = fresh_parts;
    }

  -- The deep copy of a list is one, where those of its metadata and of its items are.
  pub list_deep_copy_into-Copies : Copies Cell VM → Copies Cell V → Copies Cell list_view
  unfolding list_deep_copy_into
  list_deep_copy_into-Copies metas copies l out m within =
      let VL : View Cell _ = slice_view Cell V B in
      let in_meta : IsWithin Cell VM l.list_meta m = λ a h. within a (inl h) in
      let in_slice : IsWithin Cell VL l.items m = λ a h. within a (inr h) in
      let c₁ = metas l.list_meta l.list_meta m in_meta in
      let m₁ : Memory Cell = (Meta.deep_copy_into l.list_meta l.list_meta m).1 in
      let c₂ =
        copy_slice-Copies Cell V B copies l.items l.items m₁
          (IsWithin-grown Cell VL l.items m m₁ c₁.more in_slice c₁.grown) in
      let m₂ : Memory Cell = (copy_slice Cell Item B l.items m₁).1 in
      parts-IsCopy l _ m m₂
        (IsCopy-append Cell VM l.list_meta _ m m m₁ m₂ [] c₂.more in_meta (sym (append-nil m))
          c₂.grown c₁)
        (IsCopy-append Cell VL l.items _ m m₁ m₂ m₂ c₁.more [] in_slice c₁.grown
          (sym (append-nil m₂)) c₂)
        refl
