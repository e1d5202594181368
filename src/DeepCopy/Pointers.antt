-- ===== src/DeepCopy/Pointers.antt =====
-- DeepCopy and DeepCopyObject: the copy and the original stay apart.
use mathlib.Core.List.{append_assoc}
use provider_operator_exampl.Base.{
  ℕ, ◌<◌, ◌≤◌, [], ◌∷◌, ◌++◌, ◌≡◌, ◌∙◌, ap, refl, arith, Option, none, some, ok, length, get_elem?,
  set,
}
use provider_operator_exampl.DeepCopy.{
  Memory, Struct, Boxed, unboxed, deref, copy_target, deep_copy, deep_copy_object,
}
use provider_operator_exampl.DeepCopy.View.{
  View, SameOn, IsWithin, IsCopy, Copies, IsWithin-grown, read-append, get-append_lt, get-lt,
  get-append_length, set-append_length,
}
use provider_operator_exampl.DeepCopy.View.Written.{same_written, written_bounds}

module _ (Cell : Type 0) {S : Struct Cell} (V : View Cell S) (B : Boxed Cell S.Value) where
  -- What can be read through a pointer.
  abbrev pub read_target : Option S.Value → Memory Cell → Option V.Contents
  read_target none m = none
  read_target (some v) m = some (V.read v m)

  abbrev pub read_pointer : ℕ → Memory Cell → Option V.Contents
  read_pointer p m = read_target (deref Cell B p m) m

  -- The pointer `q` to a new cell reads in `m'` as `p` did in `m`. Whatever becomes of all that was
  -- allocated since then, `p` reads as before; and whatever becomes of all that was there, `q` does.
  pub record IsSeparate (p : ℕ) (m : Memory Cell) (q : ℕ) (m' : Memory Cell) : Type 0 where
    pub is_new : q ≡ length m
    pub same : read_pointer q m' ≡ read_pointer p m
    pub original_kept :
        (m'' : Memory Cell)
        → SameOn Cell (λ a. a < length m) m' m''
        → read_pointer p m'' ≡ read_pointer p m
    pub copy_kept :
        (m'' : Memory Cell)
        → SameOn Cell (λ a. length m ≤ a) m' m''
        → read_pointer q m'' ≡ read_pointer q m'

  module _ (p : ℕ) (m m'' : Memory Cell) (v : S.Value) (at : deref Cell B p m ≡ some v) where
    unbox_known : (o : Option Cell) → unboxed Cell B o ≡ some v → get_elem? m p ≡ o → p < length m
    unbox_known none e g = absurd (ground arith)
    unbox_known (some cell) e g = get-lt m p cell g

    in_memory : p < length m
    in_memory = unbox_known (get_elem? m p) at refl

    -- Where the cell of the pointer and all that its value leads to are the same, it reads the same.
    read_pointer_local :
        get_elem? m'' p ≡ get_elem? m p
        → SameOn Cell (V.Reaches v m) m m''
        → read_pointer p m'' ≡ read_pointer p m
    read_pointer_local cell reached =
        rw (ap (unboxed Cell B) cell ∙ at, at) (ap some (V.read_local v m m'' reached))

  -- The copy `out`, made behind a new cell and written to it.
  module _ (p : ℕ) (v out : S.Value) (m rest m₁ : Memory Cell) (blank : Cell)
      (at : deref Cell B p m ≡ some v) (within : IsWithin Cell V v m)
      (c : IsCopy Cell V v (m ++ (blank ∷ [])) out m₁) (here : m₁ ≡ m ++ (blank ∷ rest)) where
    abbrev filled : Memory Cell
    filled = m ++ (B.box out ∷ rest)

    out_at : deref Cell B (length m) filled ≡ some out
    out_at = ap (unboxed Cell B) (get-append_length m rest (B.box out)) ∙ B.unbox-box out

    reaches_new : SameOn Cell (V.Reaches out m₁) m₁ filled
    reaches_new = same_written Cell V v out m rest m₁ blank (B.box out) c here

    reads_same : read_pointer (length m) filled ≡ read_pointer p m
    reads_same =
        rw (out_at, at)
          (ap some (
            V.read_local out m₁ filled reaches_new
            ∙ (c.same ∙ read-append Cell V v m (blank ∷ []) within)))

    original_same :
        (m'' : Memory Cell)
        → SameOn Cell (λ a. a < length m) filled m''
        → read_pointer p m'' ≡ read_pointer p m
    original_same m'' e =
        let before : SameOn Cell (λ a. a < length m) m m'' =
          λ a h. e a h ∙ get-append_lt m (B.box out ∷ rest) a h in
        read_pointer_local p m m'' v at (before p (in_memory p m m'' v at))
          (λ a h. before a (within a h))

    copy_same :
        (m'' : Memory Cell)
        → SameOn Cell (λ a. length m ≤ a) filled m''
        → read_pointer (length m) m'' ≡ read_pointer (length m) filled
    copy_same m'' e =
        read_pointer_local (length m) filled m'' out out_at (e (length m) (omega arith)) λ a h.
          let b =
            written_bounds Cell V v out m rest m₁ blank (B.box out) c here a
              (V.reaches_local out m₁ filled reaches_new a h) in
          e a (omega (arith, b))

    filled-IsSeparate : IsSeparate p m (length m) filled
    filled-IsSeparate = record {
      is_new = refl;
      same = reads_same;
      original_kept = original_same;
      copy_kept = copy_same;
    }

  -- Where DeepCopyInto makes copies, the DeepCopy of a pointer to a value that is there with all
  -- that it leads to returns a pointer to a new cell that stays apart from the original.
  pub deep_copy-Separate :
      Copies Cell V
      → (p : ℕ) (v : S.Value) (m : Memory Cell) → deref Cell B p m ≡ some v
      → IsWithin Cell V v m
      → (q : ℕ) × (m' : Memory Cell) × (deep_copy Cell S B (some p) m ≡ ok (some q) m')
        × IsSeparate p m q m'
  unfolding deep_copy
  deep_copy-Separate copies p v m at within =
      let blank : Cell = B.box S.zero_value in
      let m₀ : Memory Cell = m ++ (blank ∷ []) in
      let c = copies v S.zero_value m₀ (IsWithin-grown Cell V v m m₀ (blank ∷ []) within refl) in
      let out : S.Value = (S.deep_copy_into v S.zero_value m₀).0 in
      let m₁ : Memory Cell = (S.deep_copy_into v S.zero_value m₀).1 in
      let here : m₁ ≡ m ++ (blank ∷ c.more) = c.grown ∙ append_assoc m (blank ∷ []) c.more in
      (
        length m,
        m ++ (B.box out ∷ c.more),
        ap (λ (o : Option S.Value). copy_target Cell S B o m) at
            ∙ ap (λ (t : Memory Cell). ok (some (length m)) t)
                (ap (λ (t : Memory Cell). set t (length m) (B.box out)) here
                  ∙ set-append_length m c.more blank (B.box out)),
        filled-IsSeparate p v out m c.more m₁ blank at within c here,
      )

  -- DeepCopyObject gives the nil object for a nil pointer, and else an object with the pointer that
  -- DeepCopy gives, which is not nil.
  pub deep_copy_object-Separate :
      Copies Cell V
      → (p : ℕ) (v : S.Value) (m : Memory Cell) → deref Cell B p m ≡ some v
      → IsWithin Cell V v m
      → (deep_copy_object Cell S B none m ≡ ok none m)
        × (q : ℕ) × (m' : Memory Cell) × (deep_copy_object Cell S B (some p) m
            ≡ ok (some (record { pointer = some q })) m')
        × IsSeparate p m q m'
  unfolding deep_copy_object
  deep_copy_object-Separate copies p v m at within =
      let (q, m', e, s) = deep_copy-Separate copies p v m at within in
      (unfold deep_copy in refl, q, m', rw e refl, s)
