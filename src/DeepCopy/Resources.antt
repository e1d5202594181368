-- ===== src/DeepCopy/Resources.antt =====
-- The deep copy of a resource, from those of its three parts.
use mathlib.Core.List.{append_assoc, append-nil}
use provider_operator_exampl.Base.{
  ℕ, ◌⊎◌, inl, inr, [], ◌++◌, ◌≡◌, ◌∙◌, refl, sym, length, ◌≤◌, ◌<◌,
}
use provider_operator_exampl.DeepCopy.{
  Memory, Struct, TypeMeta, Resource, resource_struct, resource_deep_copy_into,
}
use provider_operator_exampl.DeepCopy.View.{
  View, SameOn, IsWithin, IsCopy, Copies, IsCopy-append, IsWithin-grown,
}

module _ (Cell : Type 0) {Meta Spec Status : Struct Cell} (VM : View Cell Meta)
    (VS : View Cell Spec) (VT : View Cell Status) where
  abbrev pub ResourceReaches :
      Resource Meta.Value Spec.Value Status.Value → Memory Cell → ℕ → Type 0
  ResourceReaches r m a =
      VM.Reaches r.object_meta m a ⊎ VS.Reaches r.spec m a ⊎ VT.Reaches r.status m a

  abbrev pub read_resource :
      Resource Meta.Value Spec.Value Status.Value
      → Memory Cell
      → TypeMeta × VM.Contents × VS.Contents × VT.Contents
  read_resource r m = (r.type_meta, VM.read r.object_meta m, VS.read r.spec m, VT.read r.status m)

  module _ (r : Resource Meta.Value Spec.Value Status.Value) (m m' : Memory Cell)
      (e : SameOn Cell (ResourceReaches r m) m m') where
    meta_same : SameOn Cell (VM.Reaches r.object_meta m) m m'
    meta_same a h = e a (inl h)

    spec_same : SameOn Cell (VS.Reaches r.spec m) m m'
    spec_same a h = e a (inr (inl h))

    status_same : SameOn Cell (VT.Reaches r.status m) m m'
    status_same a h = e a (inr (inr h))

    pub ResourceReaches-local : (a : ℕ) → ResourceReaches r m' a → ResourceReaches r m a
    ResourceReaches-local a (inl h) = inl (VM.reaches_local r.object_meta m m' meta_same a h)
    ResourceReaches-local a (inr (inl h)) = inr (inl (VS.reaches_local r.spec m m' spec_same a h))
    ResourceReaches-local a (inr (inr h)) =
        inr (inr (VT.reaches_local r.status m m' status_same a h))

    pub resource_read_local : read_resource r m' ≡ read_resource r m
    resource_read_local =
        rw
          (
            VM.read_local r.object_meta m m' meta_same,
            VS.read_local r.spec m m' spec_same,
            VT.read_local r.status m m' status_same,
          )
          refl

  abbrev pub resource_view : View Cell (resource_struct Cell Meta Spec Status)
  resource_view = record {
    Contents = TypeMeta × VM.Contents × VS.Contents × VT.Contents;
    read = read_resource;
    Reaches = ResourceReaches;
    read_local = resource_read_local;
    reaches_local = ResourceReaches-local;
  }

  module _ (r s : Resource Meta.Value Spec.Value Status.Value) (m m' : Memory Cell)
      (metas : IsCopy Cell VM r.object_meta m s.object_meta m')
      (specs : IsCopy Cell VS r.spec m s.spec m')
      (statuses : IsCopy Cell VT r.status m s.status m') where
    fresh_parts : (a : ℕ) → ResourceReaches s m' a → (length m ≤ a) × (a < length m')
    fresh_parts a (inl h) = metas.fresh a h
    fresh_parts a (inr (inl h)) = specs.fresh a h
    fresh_parts a (inr (inr h)) = statuses.fresh a h

    parts-IsCopy : s.type_meta ≡ r.type_meta → IsCopy Cell resource_view r m s m'
    parts-IsCopy e = record {
      more = metas.more;
      grown = metas.grown;
      same = rw (e, metas.same, specs.same, statuses.same) refl;
      fresh = fresh_parts;
    }

  -- The deep copy of a resource is one, where those of its parts are.
  pub resource_deep_copy_into-Copies :
      Copies Cell VM → Copies Cell VS → Copies Cell VT → Copies Cell resource_view
  unfolding resource_deep_copy_into
  resource_deep_copy_into-Copies metas specs statuses r out m within =
      let in_meta : IsWithin Cell VM r.object_meta m = λ a h. within a (inl h) in
      let in_spec : IsWithin Cell VS r.spec m = λ a h. within a (inr (inl h)) in
      let in_status : IsWithin Cell VT r.status m = λ a h. within a (inr (inr h)) in
      let c₁ = metas r.object_meta r.object_meta m in_meta in
      let m₁ : Memory Cell = (Meta.deep_copy_into r.object_meta r.object_meta m).1 in
      let c₂ =
        specs r.spec r.spec m₁ (IsWithin-grown Cell VS r.spec m m₁ c₁.more in_spec c₁.grown) in
      let m₂ : Memory Cell = (Spec.deep_copy_into r.spec r.spec m₁).1 in
      let up_to_spec : m₂ ≡ m ++ (c₁.more ++ c₂.more) =
        c₂.grown ∙ rw (c₁.grown, append_assoc) refl in
      let c₃ =
        statuses r.status r.status m₂
          (IsWithin-grown Cell VT r.status m m₂ (c₁.more ++ c₂.more) in_status up_to_spec) in
      let m₃ : Memory Cell = (Status.deep_copy_into r.status r.status m₂).1 in
      let after_meta : m₃ ≡ m₁ ++ (c₂.more ++ c₃.more) =
        c₃.grown ∙ rw (c₂.grown, append_assoc) refl in
      let meta_copy =
        IsCopy-append Cell VM r.object_meta _ m m m₁ m₃ [] (c₂.more ++ c₃.more) in_meta
          (sym (append-nil m)) after_meta c₁ in
      let spec_copy =
        IsCopy-append Cell VS r.spec _ m m₁ m₂ m₃ c₁.more c₃.more in_spec c₁.grown c₃.grown c₂ in
      let status_copy =
        IsCopy-append Cell VT r.status _ m m₂ m₃ m₃ (c₁.more ++ c₂.more) [] in_status up_to_spec
          (sym (append-nil m₃)) c₃ in
      parts-IsCopy r _ m m₃ meta_copy spec_copy status_copy refl
