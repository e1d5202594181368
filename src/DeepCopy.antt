-- ===== src/DeepCopy.antt =====
-- apis/dbaas/v1beta1/zz_generated.deepcopy.go: the deep copies of the resources, over a memory in
-- which maps, slices and the targets of pointers are cells. All functions of the file have one of
-- the forms below; DeepCopy.Kinds has them by their names. The types that the structs embed, of
-- metav1 and dbaas-operator, come with their own DeepCopyInto and are parameters.
pub mod View
pub mod Resources
pub mod Lists
pub mod Pointers
pub mod Kinds
pub mod Copied
use provider_operator_exampl.Base.{
  ℕ, ◌>>=◌, return, String, List, [], ◌∷◌, ◌++◌, Option, none, some, length, set, get_elem?, M, ok,
  panic, ◌≡◌,
}

-- metav1.TypeMeta, a struct of two texts
pub record TypeMeta : Type 0 where
  pub kind : String
  pub api_version : String

-- The cells by their addresses. An allocation adds one at the end; nothing is freed.
abbrev pub Memory : Type 0 → Type 0
Memory Cell = List Cell

module _ (Cell : Type 0) where
  -- The values of a struct, as they stand in memory: a map, slice or pointer in a field is the
  -- address of a cell. `(*in).DeepCopyInto(out)` reads `*in`, is given what `*out` holds, and gives
  -- what it holds afterwards.
  pub record Struct : Type 1 where
    pub Value : Type 0
    pub zero_value : Value
    pub deep_copy_into : Value → Value → Memory Cell → Value × Memory Cell

  -- The cells that hold values of a type.
  pub record Boxed (A : Type 0) : Type 0 where
    pub box : A → Cell
    pub unbox : Cell → Option A
    pub unbox-box : (a : A) → unbox (box a) ≡ some a

  -- What a pointer, or the address of an array, leads to.
  abbrev pub unboxed : {A : Type 0} → Boxed A → Option Cell → Option A
  unboxed B none = none
  unboxed B (some cell) = B.unbox cell

  abbrev pub deref : {A : Type 0} → Boxed A → ℕ → Memory Cell → Option A
  deref B p m = unboxed B (get_elem? m p)

  -- A struct without references: `*out = *in`.
  abbrev pub plain_struct : (A : Type 0) → A → Struct
  plain_struct A zero_value = record {
    Value = A;
    zero_value = zero_value;
    deep_copy_into = λ in_value out m. (in_value, m);
  }

-- ProviderInventory, ProviderConnection and ProviderInstance
pub record Resource (Meta Spec Status : Type 0) : Type 0 where
  pub type_meta : TypeMeta
  pub object_meta : Meta
  pub spec : Spec
  pub status : Status

-- The lists of them; `items` is nil or the address of the array.
pub record ResourceList (Meta : Type 0) : Type 0 where
  pub type_meta : TypeMeta
  pub list_meta : Meta
  pub items : Option ℕ

-- runtime.Object where it is not nil: a pointer with its type, which might be nil itself.
pub record Object : Type 0 where
  pub pointer : Option ℕ

module _ (Cell : Type 0) where
  -- DeepCopyInto of a resource.
  unfoldable pub resource_deep_copy_into :
      (Meta Spec Status : Struct Cell)
      → Resource Meta.Value Spec.Value Status.Value
      → Resource Meta.Value Spec.Value Status.Value
      → Memory Cell
      → Resource Meta.Value Spec.Value Status.Value × Memory Cell
  resource_deep_copy_into Meta Spec Status in_value out m =
      let out₁ = in_value in
      let out₂ = record out₁ { type_meta = in_value.type_meta } in
      let (meta, m₁) = Meta.deep_copy_into in_value.object_meta out₂.object_meta m in
      let (spec, m₂) = Spec.deep_copy_into in_value.spec out₂.spec m₁ in
      let (status, m₃) = Status.deep_copy_into in_value.status out₂.status m₂ in
      (record out₂ { object_meta = meta; spec = spec; status = status }, m₃)

  abbrev pub resource_struct : (Meta Spec Status : Struct Cell) → Struct Cell
  resource_struct Meta Spec Status = record {
    Value = Resource Meta.Value Spec.Value Status.Value;
    zero_value = record {
      type_meta = record { kind = ""; api_version = "" };
      object_meta = Meta.zero_value;
      spec = Spec.zero_value;
      status = Status.zero_value;
    };
    deep_copy_into = resource_deep_copy_into Meta Spec Status;
  }

  module _ (Item : Struct Cell) where
    -- `make`: a zero value for each item.
    abbrev pub zeros : List Item.Value → List Item.Value
    zeros [] = []
    zeros (x ∷ xs) = Item.zero_value ∷ zeros xs

    -- The loop over the items, into the slots of the new array.
    unfoldable pub copy_items :
        List Item.Value → List Item.Value → Memory Cell → List Item.Value × Memory Cell
    copy_items [] slots m = ([], m)
    copy_items (x ∷ xs) [] m = ([], m)
    copy_items (x ∷ xs) (slot ∷ slots) m =
        let (y, m₁) = Item.deep_copy_into x slot m in
        let (ys, m₂) = copy_items xs slots m₁ in (y ∷ ys, m₂)

    -- The items of the array at an address.
    abbrev pub items_of : Option (List Item.Value) → List Item.Value
    items_of none = []
    items_of (some items) = items

    abbrev pub items_at : Boxed Cell (List Item.Value) → ℕ → Memory Cell → List Item.Value
    items_at B p m = items_of (deref Cell B p m)

    -- The slice: nil stays nil, and else there is a new array.
    unfoldable pub copy_slice :
        Boxed Cell (List Item.Value) → Option ℕ → Memory Cell → Option ℕ × Memory Cell
    copy_slice B none m = (none, m)
    copy_slice B (some p) m =
        let xs = items_at B p m in
        let (ys, m₁) = copy_items xs (zeros xs) (m ++ (B.box (zeros xs) ∷ [])) in
        (some (length m), set m₁ (length m) (B.box ys))

  -- DeepCopyInto of a list.
  unfoldable pub list_deep_copy_into :
      (Meta Item : Struct Cell)
      → Boxed Cell (List Item.Value)
      → ResourceList Meta.Value
      → ResourceList Meta.Value
      → Memory Cell
      → ResourceList Meta.Value × Memory Cell
  list_deep_copy_into Meta Item B in_value out m =
      let out₁ = in_value in
      let out₂ = record out₁ { type_meta = in_value.type_meta } in
      let (meta, m₁) = Meta.deep_copy_into in_value.list_meta out₂.list_meta m in
      let (items, m₂) = copy_slice Item B in_value.items m₁ in
      (record out₂ { list_meta = meta; items = items }, m₂)

  abbrev pub list_struct : (Meta Item : Struct Cell) → Boxed Cell (List Item.Value) → Struct Cell
  list_struct Meta Item B = record {
    Value = ResourceList Meta.Value;
    zero_value = record {
      type_meta = record { kind = ""; api_version = "" };
      list_meta = Meta.zero_value;
      items = none;
    };
    deep_copy_into = list_deep_copy_into Meta Item B;
  }

  module _ (S : Struct Cell) (B : Boxed Cell S.Value) where
    -- `out := new(T)`, `in.DeepCopyInto(out)` and `return out`.
    abbrev pub copy_target : Option S.Value → M (Memory Cell) ⊥ (Option ℕ)
    copy_target none m = panic m
    copy_target (some in_value) m =
        let (out, m₁) = S.deep_copy_into in_value S.zero_value (m ++ (B.box S.zero_value ∷ [])) in
        ok (some (length m)) (set m₁ (length m) (B.box out))

    -- DeepCopy. A pointer that leads to no value of its type is a panic.
    unfoldable pub deep_copy : Option ℕ → M (Memory Cell) ⊥ (Option ℕ)
    deep_copy none m = ok none m
    deep_copy (some p) m = copy_target (deref Cell B p m) m

    -- `if c := in.DeepCopy(); c != nil { return c }; return nil`
    abbrev pub as_object : Option ℕ → Option Object
    as_object none = none
    as_object (some q) = some (record { pointer = some q })

    -- DeepCopyObject.
    unfoldable pub deep_copy_object : Option ℕ → M (Memory Cell) ⊥ (Option Object)
    deep_copy_object p = do c ← deep_copy p; return (as_object c)
