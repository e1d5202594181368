-- ===== src/FakeClusters/Steps/Draining.antt =====
-- The goroutine that adds, left alone by the clients and by the other goroutines.
use mathlib.Core.List.{append-nil, append_assoc}
use provider_operator_exampl.FakeClusters.{FakeClusters}
use provider_operator_exampl.FakeClusters.Steps.{Step, receive_add, append}
use provider_operator_exampl.FakeClusters.Steps.Races.{pending}
use provider_operator_exampl.Service.{Cluster}
use provider_operator_exampl.Base.{
  inr, inl, sym, refl, ◌∙◌, Option-cases, ◌∷◌, some, none, ◌≡◌, ◌++◌, [], List,
}

-- A step of this goroutine.
abbrev pub IsAdding : {s t : FakeClusters} → Step s t → Type 0
IsAdding (receive_add c rest q n) = Unit
IsAdding (append c h) = Unit
IsAdding _ = ⊥

pub data AddReach (s : FakeClusters) : FakeClusters → Type 0 where
  alone : AddReach s s
  adds : {t u : FakeClusters} → AddReach s t → (st : Step t u) → IsAdding st → AddReach s u

-- It has nothing left to do.
abbrev pub IsIdle : FakeClusters → Type 0
IsIdle s = (s.add_queue ≡ []) × (s.add_held ≡ none)

AddReach-trans : {s t u : FakeClusters} → AddReach s t → AddReach t u → AddReach s u
AddReach-trans r alone = r
AddReach-trans r (adds q st own) = adds (AddReach-trans r q) st own

-- The goroutine that adds, left alone, lists all that is pending.
drain :
    (queue : List Cluster) (s : FakeClusters)
    → s.add_queue ≡ queue
    → s.add_held ≡ none
    → (t : FakeClusters) × AddReach s t × IsIdle t × (t.clusters ≡ s.clusters ++ queue)
drain [] s q h = (s, alone, (q, h), sym (append-nil s.clusters))
drain (c ∷ queue) s q h =
    let s₁ = record s { add_queue = queue; add_held = some c } in
    let s₂ = record s₁ { add_held = none; clusters = s.clusters ++ (c ∷ []) } in
    let (t, r, idle, e) = drain queue s₂ refl refl in
    (
      t,
      AddReach-trans (adds (adds alone (receive_add c queue q h) tt) (append c refl) tt) r,
      idle,
      e ∙ append_assoc s.clusters (c ∷ []) queue,
    )

pub drain_held :
    (s : FakeClusters)
    → (t : FakeClusters) × AddReach s t × IsIdle t × (t.clusters ≡ s.clusters ++ pending s)
drain_held s = elim (Option-cases s.add_held) [
  | inl h ↦ let (t, r, idle, e) = drain s.add_queue s refl h in (t, r, idle, rw h e)
  | inr (c, h) ↦
      let s₁ = record s { add_held = none; clusters = s.clusters ++ (c ∷ []) } in
      let (t, r, idle, e) = drain s.add_queue s₁ refl refl in
      (
        t,
        AddReach-trans (adds alone (append c h) tt) r,
        idle,
        rw h (e ∙ append_assoc s.clusters (c ∷ []) s.add_queue),
      )
]
