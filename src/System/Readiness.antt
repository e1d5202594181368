-- ===== src/System/Readiness.antt =====
-- The whole system over time: an instance that a reconciliation has given an identifier, and the
-- reconciliation that comes after the goroutine of the cloud has caught up.
use provider_operator_exampl.Api.{ready, Secret, ProviderInventory, ObjectKey, ProviderInstance}
use provider_operator_exampl.Base.{arith, ◌∙◌, ok, ◌≤◌, ◌≢◌, some, ◌≡◌, inl, inr, length}
use provider_operator_exampl.FakeClusters.{find_cluster, new_fake_clusters, FakeClusters}
use provider_operator_exampl.FakeClusters.Steps.{here}
use provider_operator_exampl.FakeClusters.Steps.Growth.{all_clusters}
use provider_operator_exampl.FakeClusters.Steps.Invariant.{reachable-Inv}
use provider_operator_exampl.FakeClusters.Steps.CaughtUp.{caught_up-listed}
use provider_operator_exampl.FakeService.{fake_service, get_cluster}
use provider_operator_exampl.FakeService.Extend.{with_clusters}
use provider_operator_exampl.Host.{Host, done}
use provider_operator_exampl.Host.Server.{key_of, Server}
use provider_operator_exampl.Instance.{reconcile}
use provider_operator_exampl.Inventory.{secret_selector}
use provider_operator_exampl.Service.{Cluster}
use provider_operator_exampl.Service.Calm.{CalmHost}
use provider_operator_exampl.Service.Info.{populate_instance_info}
use provider_operator_exampl.System.Backing.{Sightings, Sound, KeepsInstances}
use provider_operator_exampl.System.Backing.Invariant.{
  SystemReach, SystemReach-Sound, reached-Sound,
}
use provider_operator_exampl.System.Completion.{instance_completed}

module _ (H : Host) (V : Server H) (Seen : Sightings H) (Good : H.World → Type 0)
    (L : KeepsInstances H V Seen) (K : CalmHost H Good) (w₀ w w' : H.World) (f g : FakeClusters)
    (good : Good w₀)
    (blank : (k : ObjectKey) (y : ProviderInstance) → Seen w₀ k y → y.status.instance_id ≡ "")
    (reached : SystemReach H V Seen Good (w₀, new_fake_clusters) (w, f))
    (later : SystemReach H V Seen Good (w, f) (w', g))
    (caught_up : length (all_clusters f) ≤ length g.clusters) where
  open H use {World}

  before : Sound H V Seen Good new_fake_clusters (w, f)
  before = reached-Sound H V Seen Good L K w₀ w f good blank reached

  -- The same of the state of now, with the steps that the cloud has taken since then.
  now : Sound H V Seen Good f (w', g)
  now = SystemReach-Sound H V Seen Good L K f (before.0, (before.1.0, here), before.2) later

  named_listed :
      (k : ObjectKey) (y : ProviderInstance)
      → Seen w k y
      → y.status.instance_id ≢ ""
      → (c : Cluster) × (find_cluster y.status.instance_id g.clusters ≡ some c)
  named_listed k y seen named = elim (before.2 k y seen) [
    | inl b ↦ absurd (named b)
    | inr (c, known) ↦ (
      c,
      caught_up-listed y.status.instance_id c (reachable-Inv before.1.0) now.1.1 caught_up known,
    )
  ]

  -- From a start at which no instance that can be read has an identifier, let reconciliations,
  -- steps of the cloud and edits that leave the identifiers alone follow, interleaved in any way,
  -- until an instance can be read with an identifier, and more of them until the cloud lists as
  -- many clusters as it had accepted by then. An instance that is read with that identifier is then
  -- made ready, where its inventory and the secret can be read and the status can be updated:
  -- GetCluster finds its cluster, the reconciliation ends well, and the stored instance has the
  -- same identifier, the details of that cluster and the phase Ready.
  pub instance_becomes_ready :
      (k request : ObjectKey) (y instance : ProviderInstance) (inventory : ProviderInventory)
      (secret : Secret) (w₁ w₂ w₃ : World)
      → Seen w k y
      → y.status.instance_id ≢ ""
      → H.get_instance request w' ≡ ok instance w₁
      → instance.status.instance_id ≡ y.status.instance_id
      → H.get_inventory instance.spec.inventory_ref w₁ ≡ ok inventory w₂
      → H.get_secret (secret_selector inventory) w₂ ≡ ok secret w₃
      → ((x : ProviderInstance)
          → (z : ProviderInstance) × (w₄ : World) × (H.update_instance_status x w₃ ≡ ok z w₄))
      → (c : Cluster) × (object : ProviderInstance) × (w₄ : World) × (get_cluster H tt
            y.status.instance_id
            (w', g)
          ≡ ok (some c) (w', g))
        × (reconcile (with_clusters H) (fake_service H) request (w', g) ≡ ok done (w₄, g))
        × (V.instance_at w₄ (key_of instance.metadata) ≡ some object)
        × (object.status.instance_id ≡ y.status.instance_id)
        × (populate_instance_info c ≡ some object.status.instance_info)
        × (object.status.phase ≡ ready)
  instance_becomes_ready k request y instance inventory secret w₁ w₂ w₃ seen named r same i s
        writes =
      let (c, found) = named_listed k y seen named in
      let (object, w₄, ends, at, id, info, phase) =
        instance_completed H V request instance inventory secret c w' w₁ w₂ w₃ g now.1.0 r i s
          writes (rw same named) (rw same found) in
      (c, object, w₄, unfold get_cluster in ground arith, ends, at, id ∙ same, info, phase)
