-- ===== src/DeepCopy/Copied.antt =====
-- What the deep copies of resources and of lists promise, from what those of their parts do.
use provider_operator_exampl.Base.{ℕ, List, none, some, ok, ◌≡◌}
use provider_operator_exampl.DeepCopy.{
  Memory, Struct, Boxed, Resource, ResourceList, resource_struct, list_struct, deep_copy_object,
  deref,
}
use provider_operator_exampl.DeepCopy.View.{View, IsWithin, Copies}
use provider_operator_exampl.DeepCopy.Resources.{resource_view, resource_deep_copy_into-Copies}
use provider_operator_exampl.DeepCopy.Lists.Whole.{list_view, list_deep_copy_into-Copies}
use provider_operator_exampl.DeepCopy.Pointers.{IsSeparate, deep_copy_object-Separate}

module _ (Cell : Type 0) {Meta Spec Status : Struct Cell} (VM : View Cell Meta)
    (VS : View Cell Spec) (VT : View Cell Status) (metas : Copies Cell VM) (specs : Copies Cell VS)
    (statuses : Copies Cell VT) where
  -- Where the structs that a resource embeds are copied as documented, DeepCopyObject of a resource
  -- gives the nil object for a nil pointer, and for a pointer to a resource an object with a
  -- pointer to a new cell, through which the same can be read. What is done to memory that was
  -- allocated since then does not show through the original, and what is done to memory that was
  -- there before does not show through the copy.
  pub resource_deep_copied :
      (B : Boxed Cell (Resource Meta.Value Spec.Value Status.Value)) (p : ℕ)
      (r : Resource Meta.Value Spec.Value Status.Value) (m : Memory Cell)
      → deref Cell B p m ≡ some r
      → IsWithin Cell (resource_view Cell VM VS VT) r m
      → (deep_copy_object Cell (resource_struct Cell Meta Spec Status) B none m ≡ ok none m)
        × (q : ℕ) × (m' : Memory Cell) × (deep_copy_object Cell
              (resource_struct Cell Meta Spec Status)
              B
              (some p)
              m
            ≡ ok (some (record { pointer = some q })) m')
        × IsSeparate Cell (resource_view Cell VM VS VT) B p m q m'
  resource_deep_copied B =
      deep_copy_object-Separate Cell (resource_view Cell VM VS VT) B
        (resource_deep_copy_into-Copies Cell VM VS VT metas specs statuses)

  -- Where the structs that a list and its resources embed are copied as documented,
  -- DeepCopyObject of the list gives the nil object for a nil pointer, and for a pointer to a list
  -- an object with a pointer to a new cell, through which the same can be read: nil items where
  -- they are nil, and else as many items with the same contents. What is done to memory that was
  -- allocated since then does not show through the original, nor what is done to memory that was
  -- there before through the copy, arrays and items included.
  pub list_deep_copied :
      {ListMeta : Struct Cell} (VL : View Cell ListMeta)
      → Copies Cell VL
      → (A : Boxed Cell (List (Resource Meta.Value Spec.Value Status.Value)))
        (B : Boxed Cell (ResourceList ListMeta.Value)) (p : ℕ) (l : ResourceList ListMeta.Value)
        (m : Memory Cell)
      → deref Cell B p m ≡ some l
      → IsWithin Cell (list_view Cell VL (resource_view Cell VM VS VT) A) l m
      → (deep_copy_object Cell
            (list_struct Cell ListMeta (resource_struct Cell Meta Spec Status) A)
            B
            none
            m
          ≡ ok none m)
        × (q : ℕ) × (m' : Memory Cell) × (deep_copy_object Cell
              (list_struct Cell ListMeta (resource_struct Cell Meta Spec Status) A)
              B
              (some p)
              m
            ≡ ok (some (record { pointer = some q })) m')
        × IsSeparate Cell (list_view Cell VL (resource_view Cell VM VS VT) A) B p m q m'
  list_deep_copied VL lists A B =
      deep_copy_object-Separate Cell (list_view Cell VL (resource_view Cell VM VS VT) A) B (
        list_deep_copy_into-Copies Cell VL (resource_view Cell VM VS VT) A lists
          (resource_deep_copy_into-Copies Cell VM VS VT metas specs statuses))
