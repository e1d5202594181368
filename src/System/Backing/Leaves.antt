-- ===== src/System/Backing/Leaves.antt =====
-- What a call leaves behind, also amid other steps: sound states, in which the cloud has grown.
use provider_operator_exampl.System.Backing.{
  Sightings, AllBacked, KeepsIds, Grows, Sound, SoundAt, OtherStep, OtherSteps, cloud_step, edits,
  none_yet, and_then, Move,
}
use provider_operator_exampl.System.Backing.Amid.{Course, amid, carry}
use provider_operator_exampl.FakeClusters.Steps.{Step, Reach, next}
use provider_operator_exampl.FakeClusters.Steps.Growth.{Step-IsKnown}
use provider_operator_exampl.Host.{Host}
use provider_operator_exampl.Host.Server.{Server}
use provider_operator_exampl.FakeClusters.{new_fake_clusters, FakeClusters}
use provider_operator_exampl.Base.{proceed, [], panic, err, ◌∷◌, ok, inr, M, Outcome, inl, List}
use provider_operator_exampl.Service.Calm.{Calmly}
use provider_operator_exampl.FakeClusters.Steps.Invariant.{reachable-Inv}

module _ (H : Host) (V : Server H) (Seen : Sightings H) (Good : H.World → Type 0)
    (f₀ : FakeClusters) where
  edits-AllBacked :
      (w w' : H.World) (f : FakeClusters)
      → KeepsIds H V Seen w w'
      → AllBacked H V Seen w f
      → AllBacked H V Seen w' f
  edits-AllBacked w w' f keeps backed k y at = elim (keeps k y at) [
    | inl blank ↦ inl blank
    | inr (x, before, same) ↦ rw same at (backed k x before)
  ]

  Step-Grows : {f g : FakeClusters} → Reach new_fake_clusters f → Step f g → Grows H V Seen f g
  Step-Grows r st id (inl blank) = inl blank
  Step-Grows r st id (inr known) = inr (Step-IsKnown id (reachable-Inv r) st known)

  pub OtherStep-Sound :
      {s t : H.World × FakeClusters}
      → Sound H V Seen Good f₀ s
      → OtherStep H V Seen Good s t
      → Sound H V Seen Good f₀ t × Grows H V Seen s.1 t.1
  OtherStep-Sound {s} (good, r, backed) (cloud_step st) = (
    (
      good,
      (next r.0 st, next r.1 st),
      λ k y at. Step-Grows r.0 st y.status.instance_id (backed k y at),
    ),
    Step-Grows r.0 st,
  )
  OtherStep-Sound {s} (_, r, backed) (edits w good keeps) =
      ((good, r, edits-AllBacked s.0 w s.1 keeps backed), λ id b. b)

  pub OtherSteps-Sound :
      {s t : H.World × FakeClusters}
      → Sound H V Seen Good f₀ s
      → OtherSteps H V Seen Good s t
      → Sound H V Seen Good f₀ t × Grows H V Seen s.1 t.1
  OtherSteps-Sound sound none_yet = (sound, λ id b. b)
  OtherSteps-Sound sound (and_then r st) =
      let (s₁, g₁) = OtherSteps-Sound sound r in
      let (s₂, g₂) = OtherStep-Sound s₁ st in (s₂, λ id b. g₂ id (g₁ id b))

  module _ {A : Type 0} (R : FakeClusters → A → Type 0) where
    -- A value of which `R` holds beside the cloud of then, or an error, in a sound state in which
    -- the cloud has grown.
    abbrev pub Leaves : FakeClusters → Outcome (H.World × FakeClusters) H.Err A → Type 0
    Leaves g (ok a s) = R s.1 a × Sound H V Seen Good f₀ s × Grows H V Seen g s.1
    Leaves g (err e s) = Sound H V Seen Good f₀ s × Grows H V Seen g s.1
    Leaves g (panic s) = ⊥

    abbrev pub LeavesAmid : FakeClusters → Outcome (Course H V Seen Good) H.Err A → Type 0
    LeavesAmid g (ok a w) = R w.0.1 a × Sound H V Seen Good f₀ w.0 × Grows H V Seen g w.0.1
    LeavesAmid g (err e w) = Sound H V Seen Good f₀ w.0 × Grows H V Seen g w.0.1
    LeavesAmid g (panic w) = ⊥

    pub SoundAt-Leaves :
        (g : FakeClusters) (o : Outcome (H.World × FakeClusters) H.Err A)
        → Calmly (SoundAt H V Seen Good f₀ g) (R g) o
        → Leaves g o
    SoundAt-Leaves g (ok a s) (p, (sound, same)) = (rw same p, sound, λ id b. rw same b)
    SoundAt-Leaves g (err e s) (sound, same) = (sound, λ id b. rw same b)
    SoundAt-Leaves g (panic s) x = x

    pub carry-Leaves :
        (g f : FakeClusters) (vs : List (Move H V Seen Good))
        (o : Outcome (H.World × FakeClusters) H.Err A)
        → Grows H V Seen g f
        → Leaves f o
        → LeavesAmid g (carry o vs)
    carry-Leaves g f vs (ok a s) grown (p, sound, more) = (p, sound, λ id b. more id (grown id b))
    carry-Leaves g f vs (err e s) grown (sound, more) = (sound, λ id b. more id (grown id b))
    carry-Leaves g f vs (panic s) grown x = x

    -- A call that leaves sound states does so amid other steps.
    pub amid-Leaves :
        (m : M (H.World × FakeClusters) H.Err A) (g : FakeClusters)
        → ((s : H.World × FakeClusters)
            → Sound H V Seen Good f₀ s
            → Grows H V Seen g s.1
            → Leaves s.1 (m s))
        → (w : Course H V Seen Good) → Sound H V Seen Good f₀ w.0
        → Grows H V Seen g w.0.1
        → LeavesAmid g (amid H V Seen Good m w)
    amid-Leaves m g leaves (s, []) sound grown =
        carry-Leaves g s.1 [] (m s) grown (leaves s sound grown)
    amid-Leaves m g leaves (s, v ∷ vs) sound grown =
        let (sound₁, more) = OtherSteps-Sound sound (v.by_steps s) in
        let grown₁ : Grows H V Seen g (v.go s).1 = λ id b. more id (grown id b) in
        carry-Leaves g (v.go s).1 vs (m (v.go s)) grown₁ (leaves (v.go s) sound₁ grown₁)

  -- A sound state whose cloud has grown from the one given.
  abbrev pub SoundSince : FakeClusters → Course H V Seen Good → Type 0
  SoundSince g w = Sound H V Seen Good f₀ w.0 × Grows H V Seen g w.0.1

  module _ {A : Type 0} (R : FakeClusters → A → Type 0) where
    pub LeavesAmid-Calmly :
        (P : A → Type 0) (g : FakeClusters) (o : Outcome (Course H V Seen Good) H.Err A)
        → ((f : FakeClusters) (a : A) → Grows H V Seen g f → R f a → P a)
        → LeavesAmid R g o
        → Calmly (SoundSince g) P o
    LeavesAmid-Calmly P g (ok a w) p (r, sound, more) = (p w.0.1 a more r, (sound, more))
    LeavesAmid-Calmly P g (err e w) p (sound, more) = (sound, more)
    LeavesAmid-Calmly P g (panic w) p x = x

    -- After a call, what is known is known of the cloud of then.
    pub proceed-LeavesAmid :
        {B : Type 0} (Q : Outcome (Course H V Seen Good) H.Err B → Type 0) (g : FakeClusters)
        (onward : A → M (Course H V Seen Good) H.Err B)
        (caught : H.Err → M (Course H V Seen Good) H.Err B)
        (o : Outcome (Course H V Seen Good) H.Err A)
        → LeavesAmid R g o
        → ((a : A) (w : Course H V Seen Good)
            → R w.0.1 a
            → SoundSince w.0.1 w
            → Grows H V Seen g w.0.1
            → Q (onward a w))
        → ((e : H.Err) (w : Course H V Seen Good) → SoundSince g w → Q (caught e w))
        → Q (proceed o onward caught)
    proceed-LeavesAmid Q g onward caught (ok a w) (r, sound, more) n c =
        n a w r (sound, λ id b. b) more
    proceed-LeavesAmid Q g onward caught (err e w) (sound, more) n c = c e w (sound, more)
    proceed-LeavesAmid Q g onward caught (panic w) x n c = absurd x
