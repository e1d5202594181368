-- ===== src/System/Backing/Invariant.antt =====
-- The whole system as steps: reconciliations, the clients and goroutines of the provider cloud, and
-- the edits of users, in any order.
use provider_operator_exampl.System.Backing.Amid.{perform_amid}
use provider_operator_exampl.System.Backing.Leaves.{OtherStep-Sound}
use provider_operator_exampl.System.Backing.{Sightings, Move, OtherStep, KeepsInstances, Sound}
use provider_operator_exampl.System.Backing.Instances.{instance_reconcile-Sound}
use provider_operator_exampl.System.Backing.Quiet.{
  inventory_reconcile-Sound, connection_reconcile-Sound,
}
use provider_operator_exampl.System.Jobs.{Job, inventory_job, connection_job, instance_job}
use provider_operator_exampl.FakeClusters.Steps.{here}
use provider_operator_exampl.FakeClusters.Steps.Draining.{AddReach, IsIdle}
use provider_operator_exampl.FakeClusters.Steps.Growth.{find_cluster-id, IsKnown, known_listed}
use provider_operator_exampl.FakeService.{get_cluster}
use provider_operator_exampl.Host.{Host}
use provider_operator_exampl.Host.Server.{Server}
use provider_operator_exampl.FakeClusters.{new_fake_clusters, FakeClusters}
use provider_operator_exampl.Service.Calm.{Replies, CalmHost}
use provider_operator_exampl.Api.{ProviderInstance, ObjectKey}
use provider_operator_exampl.Base.{List, arith, ok, ◌≢◌, some, ◌≡◌, inr, world, inl}
use provider_operator_exampl.Service.{Cluster}

module _ (H : Host) (V : Server H) (Seen : Sightings H) (Good : H.World → Type 0) where
  -- A reconciliation, with what happens before each of its calls and before the send of
  -- CreateCluster, or a step beside it.
  pub data SystemStep (s : H.World × FakeClusters) : H.World × FakeClusters → Type 0 where
    reconciles :
        (job : Job) (moves : List (Move H V Seen Good))
        → SystemStep s (world (perform_amid H V Seen Good job (s, moves))).0
    other : {t : H.World × FakeClusters} → OtherStep H V Seen Good s t → SystemStep s t

  pub data SystemReach (s : H.World × FakeClusters) : H.World × FakeClusters → Type 0 where
    at_start : SystemReach s s
    then_step : {t u : H.World × FakeClusters} → SystemReach s t → SystemStep t u → SystemReach s u

module _ (H : Host) (V : Server H) (Seen : Sightings H) (Good : H.World → Type 0)
    (L : KeepsInstances H V Seen) (K : CalmHost H Good) (f₀ : FakeClusters) where
  perform-Sound :
      (job : Job) → Replies (λ w. Sound H V Seen Good f₀ w.0) (perform_amid H V Seen Good job)
  perform-Sound (inventory_job k) = inventory_reconcile-Sound H V Seen Good f₀ L K k
  perform-Sound (connection_job k) = connection_reconcile-Sound H V Seen Good f₀ L K k
  perform-Sound (instance_job k) = instance_reconcile-Sound H V Seen Good f₀ L K k

  SystemStep-Sound :
      {s t : H.World × FakeClusters}
      → Sound H V Seen Good f₀ s
      → SystemStep H V Seen Good s t
      → Sound H V Seen Good f₀ t
  SystemStep-Sound {s} sound (reconciles job moves) =
      let r = perform-Sound job (s, moves) sound in rw r.replied r.good
  SystemStep-Sound {s} sound (other st) =
      let (t, _) = OtherStep-Sound H V Seen Good f₀ sound st in t

  -- Whatever happens, the state stays sound.
  pub SystemReach-Sound :
      {s t : H.World × FakeClusters}
      → Sound H V Seen Good f₀ s
      → SystemReach H V Seen Good s t
      → Sound H V Seen Good f₀ t
  SystemReach-Sound sound at_start = sound
  SystemReach-Sound sound (then_step r st) = SystemStep-Sound (SystemReach-Sound sound r) st

module _ (H : Host) (V : Server H) (Seen : Sightings H) (Good : H.World → Type 0)
    (L : KeepsInstances H V Seen) (K : CalmHost H Good) where
  module _ (w₀ w : H.World) (f : FakeClusters) (good : Good w₀)
      (blank : (k : ObjectKey) (y : ProviderInstance) → Seen w₀ k y → y.status.instance_id ≡ "")
      (reached : SystemReach H V Seen Good (w₀, new_fake_clusters) (w, f)) where
    pub reached-Sound : Sound H V Seen Good new_fake_clusters (w, f)
    reached-Sound =
        SystemReach-Sound H V Seen Good L K new_fake_clusters
          (good, (here, here), λ k y at. inl (blank k y at)) reached

    -- From a start at which no instance that can be read has an identifier, whatever
    -- reconciliations, steps of the cloud and edits that leave the identifiers alone follow in any
    -- order, the steps and edits also between the calls of a reconciliation and before the send of
    -- a CreateCluster, and reads that may give former versions: the cloud lists or will list a
    -- cluster under the identifier of each stored instance that has one.
    pub stored_instance-IsKnown :
        (k : ObjectKey) (y : ProviderInstance)
        → V.instance_at w k ≡ some y
        → y.status.instance_id ≢ ""
        → IsKnown f y.status.instance_id
    stored_instance-IsKnown k y at named = elim (reached-Sound.2 k y (L.stored_seen w k y at)) [
      | inl b ↦ absurd (named b)
      | inr known ↦ known
    ]

    -- From every state that is reached by reconciliations, steps of the cloud and edits that
    -- leave the identifiers alone, from a start at which no instance that can be read has an
    -- identifier, the goroutine of the cloud that adds comes, by steps of its own alone, to a
    -- state in which it has nothing left to do and GetCluster answers for a stored instance that
    -- has an identifier with a cluster that has it.
    pub stored_instance_found :
        (k : ObjectKey) (y : ProviderInstance)
        → V.instance_at w k ≡ some y
        → y.status.instance_id ≢ ""
        → (g : FakeClusters) × AddReach f g
          × IsIdle g
          × (c : Cluster) × (get_cluster H tt y.status.instance_id (w, g) ≡ ok (some c) (w, g))
          × (c.id ≡ y.status.instance_id)
    stored_instance_found k y at named =
        let (g, r, idle, c, e) =
          known_listed f y.status.instance_id (stored_instance-IsKnown k y at named) in
        (
          g,
          r,
          idle,
          c,
          unfold get_cluster in ground arith,
          find_cluster-id y.status.instance_id g.clusters c e,
        )
