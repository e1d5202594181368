-- ===== src/Examples/Copies.antt =====
-- Deep copies in a small memory, where the metadata is a map of labels and the rest are texts.
use mathlib.Core.List.{append-nil}
use provider_operator_exampl.Base.{
  ℕ, String, List, [], ◌∷◌, ◌++◌, Option, none, some, ok, ◌≡◌, ap, refl, arith, length,
  length-append, get_elem?, inl, inr, sym,
}
use provider_operator_exampl.Base.Dict.{Dict}
use provider_operator_exampl.DeepCopy.{
  Struct, Boxed, Memory, Resource, ResourceList, TypeMeta, resource_struct, list_struct,
  plain_struct, deep_copy_object, deep_copy, list_deep_copy_into, copy_slice, copy_items,
  resource_deep_copy_into,
}
use provider_operator_exampl.DeepCopy.Copied.{resource_deep_copied, list_deep_copied}
use provider_operator_exampl.DeepCopy.Kinds.Plain.{plain_view, plain-Copies}
use provider_operator_exampl.DeepCopy.Lists.Whole.{list_view}
use provider_operator_exampl.DeepCopy.Pointers.{IsSeparate}
use provider_operator_exampl.DeepCopy.Resources.{resource_view}
use provider_operator_exampl.DeepCopy.View.{View, Copies, IsWithin, SameOn, get-append_length}

abbrev Labelled : Type 0
Labelled = Resource (Option ℕ) String String

abbrev LabelledList : Type 0
LabelledList = ResourceList (Option ℕ)

data Slot : Type 0 where
  labels : Dict String → Slot
  target : Labelled → Slot
  array : List Labelled → Slot
  listing : LabelledList → Slot

abbrev labels_of : Option Slot → Dict String
labels_of (some (labels d)) = d
labels_of (some (target _)) = []
labels_of (some (array _)) = []
labels_of (some (listing _)) = []
labels_of none = []

-- The address of a map, or nil.
abbrev copy_labels : Option ℕ → Option ℕ → Memory Slot → Option ℕ × Memory Slot
copy_labels none out m = (none, m)
copy_labels (some p) out m = (some (length m), m ++ (labels (labels_of (get_elem? m p)) ∷ []))

abbrev labels_struct : Struct Slot
labels_struct = record { Value = Option ℕ; zero_value = none; deep_copy_into = copy_labels }

abbrev LabelsReach : Option ℕ → ℕ → Type 0
LabelsReach none a = ⊥
LabelsReach (some p) a = a ≡ p

abbrev read_labels : Option ℕ → Memory Slot → Option (Dict String)
read_labels none m = none
read_labels (some p) m = some (labels_of (get_elem? m p))

read_labels_local :
    (v : Option ℕ) (m m' : Memory Slot)
    → SameOn Slot (LabelsReach v) m m'
    → read_labels v m' ≡ read_labels v m
read_labels_local none m m' e = refl
read_labels_local (some p) m m' e = ap (λ (o : Option Slot). some (labels_of o)) (e p refl)

abbrev labels_view : View Slot labels_struct
labels_view = record {
  Contents = Option (Dict String);
  read = read_labels;
  Reaches = λ v m a. LabelsReach v a;
  read_local = read_labels_local;
  reaches_local = λ v m m' e a h. h;
}

labels-Copies : Copies Slot labels_view
labels-Copies none out m within = record {
  more = [];
  grown = sym (append-nil m);
  same = refl;
  fresh = λ a h. absurd h;
}
labels-Copies (some p) out m within =
    let cell : Slot = labels (labels_of (get_elem? m p)) in
    record {
      more = cell ∷ [];
      grown = refl;
      same = ap (λ (o : Option Slot). some (labels_of o)) (get-append_length m [] cell);
      fresh = λ a h. rw h (omega (arith, length-append m (cell ∷ [])));
    }

abbrev target_box : Boxed Slot Labelled
target_box = record {
  box = target;
  unbox = λ s. elim s [ target r ↦ some r | _ ↦ none ];
  unbox-box = λ r. refl;
}

abbrev array_box : Boxed Slot (List Labelled)
array_box = record {
  box = array;
  unbox = λ s. elim s [ array xs ↦ some xs | _ ↦ none ];
  unbox-box = λ xs. refl;
}

abbrev listing_box : Boxed Slot LabelledList
listing_box = record {
  box = listing;
  unbox = λ s. elim s [ listing l ↦ some l | _ ↦ none ];
  unbox-box = λ l. refl;
}

abbrev text_struct : Struct Slot
text_struct = plain_struct Slot String ""

abbrev text_view : View Slot text_struct
text_view = plain_view Slot String ""

abbrev a_type : TypeMeta
a_type = record { kind = "ProviderInstance"; api_version = "v1beta1" }

abbrev first_item : Labelled
first_item = record { type_meta = a_type; object_meta = some 0; spec = "one"; status = "Ready" }

abbrev two_items : List Labelled
two_items = first_item ∷ record first_item { object_meta = none; spec = "two" } ∷ []

abbrev a_list : LabelledList
a_list = record { type_meta = a_type; list_meta = none; items = some 2 }

-- A map, a resource that refers to it, an array with that resource and another, and a list.
abbrev some_memory : Memory Slot
some_memory =
    labels (("team", "a") ∷ []) ∷ target first_item ∷ array two_items ∷ listing a_list ∷ []

abbrev views : View Slot (resource_struct Slot labels_struct text_struct text_struct)
views = resource_view Slot labels_view text_view text_view

first-IsWithin : IsWithin Slot views first_item some_memory
first-IsWithin a (inl h) = omega arith
first-IsWithin a (inr (inl h)) = absurd h
first-IsWithin a (inr (inr h)) = absurd h

resource_deep_copied_example :
    (deep_copy_object Slot
        (resource_struct Slot labels_struct text_struct text_struct)
        target_box
        none
        some_memory
      ≡ ok none some_memory)
    × (q : ℕ) × (m' : Memory Slot) × (deep_copy_object Slot
          (resource_struct Slot labels_struct text_struct text_struct)
          target_box
          (some 1)
          some_memory
        ≡ ok (some (record { pointer = some q })) m')
    × IsSeparate Slot views target_box 1 some_memory q m'
resource_deep_copied_example =
    resource_deep_copied Slot labels_view text_view text_view labels-Copies
      (plain-Copies Slot String "") (plain-Copies Slot String "") target_box 1 first_item
      some_memory refl first-IsWithin

abbrev labelled_struct : Struct Slot
labelled_struct = resource_struct Slot labels_struct text_struct text_struct

abbrev labelled_list_struct : Struct Slot
labelled_list_struct = list_struct Slot labels_struct labelled_struct array_box

abbrev list_views : View Slot labelled_list_struct
list_views = list_view Slot labels_view views array_box

list-IsWithin : IsWithin Slot list_views a_list some_memory
list-IsWithin a (inl h) = absurd h
list-IsWithin a (inr (inl e)) = omega arith
list-IsWithin a (inr (inr (inl (inl h)))) = omega arith
list-IsWithin a (inr (inr (inl (inr (inl h))))) = absurd h
list-IsWithin a (inr (inr (inl (inr (inr h))))) = absurd h
list-IsWithin a (inr (inr (inr (inl (inl h))))) = absurd h
list-IsWithin a (inr (inr (inr (inl (inr (inl h)))))) = absurd h
list-IsWithin a (inr (inr (inr (inl (inr (inr h)))))) = absurd h
list-IsWithin a (inr (inr (inr (inr h)))) = absurd h

list_deep_copied_example :
    (deep_copy_object Slot labelled_list_struct listing_box none some_memory ≡ ok none some_memory)
    × (q : ℕ) × (m' : Memory Slot) × (deep_copy_object Slot labelled_list_struct listing_box
          (some 3)
          some_memory
        ≡ ok (some (record { pointer = some q })) m')
    × IsSeparate Slot list_views listing_box 3 some_memory q m'
list_deep_copied_example =
    list_deep_copied Slot labels_view text_view text_view labels-Copies
      (plain-Copies Slot String "") (plain-Copies Slot String "") labels_view labels-Copies
      array_box listing_box 3 a_list some_memory refl list-IsWithin

-- The copy of the list: its array, the map of the first item of that, and the array filled.
list_copied :
    deep_copy Slot labelled_list_struct listing_box (some 3) some_memory
    ≡ ok (some 4) (
        some_memory
        ++ (listing (record a_list { items = some 5 })
            ∷ array (
                record first_item { object_meta = some 6 }
                ∷ record first_item { object_meta = none; spec = "two" }
                ∷ [])
            ∷ labels (("team", "a") ∷ [])
            ∷ []))
unfolding deep_copy list_deep_copy_into copy_slice copy_items resource_deep_copy_into
list_copied = refl
