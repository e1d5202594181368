-- ===== src/System/Mirror.antt =====
-- The inventory controller over the provider cloud.
use provider_operator_exampl.FakeService.{create_cloud_service, fake_service}
use provider_operator_exampl.Host.{Host, done}
use provider_operator_exampl.Inventory.{secret_selector, with_services, reconcile}
use provider_operator_exampl.Inventory.Laws.{inventory_reconcile-Finish}
use provider_operator_exampl.Inventory.Ends.{synced, Finish, Written}
use provider_operator_exampl.FakeService.Extend.{with_clusters, lift}
use provider_operator_exampl.Host.Server.{SetsConditions, Server}
use provider_operator_exampl.Api.{condition_true, DatabaseService, ProviderInventory, ObjectKey}
use provider_operator_exampl.Base.{arith, ok, List, ◌≡◌, M}
use provider_operator_exampl.FakeClusters.{new_fake_clusters, FakeClusters}
use provider_operator_exampl.FakeClusters.Steps.{Reach}
use provider_operator_exampl.FakeService.Laws.{reachable_discover, Lists}
use provider_operator_exampl.FakeService.Lifted.{extend_conditions, extend_server}
use provider_operator_exampl.Api.Reasons.{inventory_sync_ok}

pub lift_keeps :
    {W E A : Type 0} (m : M W E A) (w : W) (f : FakeClusters) (a : A) (w' : W × FakeClusters)
    → lift m (w, f) ≡ ok a w'
    → (m w ≡ ok a w'.0) × (w'.1 ≡ f)
unfolding lift
lift_keeps m w f a w' h = (ground arith, ground arith)

pub create_cloud_service_keeps :
    (H : Host) (selector : ObjectKey) (w : H.World) (f : FakeClusters) (w' : H.World × FakeClusters)
    → create_cloud_service H selector (w, f) ≡ ok tt w'
    → w'.1 ≡ f
unfolding create_cloud_service lift
create_cloud_service_keeps H selector w f w' h = ground arith

module _ (H : Host) (V : Server H) (C : SetsConditions H) where
  open H use {World}

  abbrev pub IsMirrored :
      ProviderInventory
      → FakeClusters
      → World × FakeClusters
      → World × FakeClusters
      → List DatabaseService
      → Type 0
  IsMirrored inventory f w w' services =
      Lists services f.clusters
      × Written (with_clusters H) (extend_server H V) (extend_conditions H C)
          (with_services inventory services) condition_true inventory_sync_ok w w'

  finish-mirror :
      (request : ObjectKey) (inventory : ProviderInventory) (w w₁ : World) (f : FakeClusters)
      (w' : World × FakeClusters)
      → Reach new_fake_clusters f
      → H.get_inventory request w ≡ ok inventory w₁
      → Finish
          (with_clusters H)
          (extend_server H V)
          (extend_conditions H C)
          (fake_service H)
          request
          (w, f)
          w'
      → (services : List DatabaseService) × (w₃ : World × FakeClusters) × IsMirrored inventory f w₃
          w' services
  finish-mirror request inventory w w₁ f w' r g (Finish.absent e u n) =
      absurd (unfold lift in ground arith)
  finish-mirror request inventory w w₁ f w' r g
        (synced other cloud services v₁ v₂ v₃ a b c written) =
      let (found, kept₁) = lift_keeps (H.get_inventory request) w f other v₁ a in
      let same : other ≡ inventory = ground arith in
      let kept₂ = create_cloud_service_keeps H (secret_selector other) v₁.0 v₁.1 v₂ b in
      let r₂ : Reach new_fake_clusters v₂.1 = rw (kept₂, kept₁) r in
      let (listed, d, l) = reachable_discover H v₂.0 v₂.1 r₂ in
      let equal : services ≡ listed = ground arith in
      (services, v₃, (rw (equal, ← kept₁, ← kept₂) l, rw same at written))

  -- In every state that the provider cloud reaches, a reconciliation of an inventory that is there
  -- and that ends well has written a list with the identifiers and the names of exactly the
  -- clusters of the cloud, in order, with the condition SyncOK; or its write met a conflict.
  pub inventory_mirrors_cloud :
      (request : ObjectKey) (inventory : ProviderInventory) (w w₁ : World) (f : FakeClusters)
      (w' : World × FakeClusters)
      → Reach new_fake_clusters f
      → H.get_inventory request w ≡ ok inventory w₁
      → reconcile (with_clusters H) (fake_service H) request (w, f) ≡ ok done w'
      → (services : List DatabaseService) × (w₃ : World × FakeClusters) × IsMirrored inventory f w₃
          w' services
  inventory_mirrors_cloud request inventory w w₁ f w' r g h =
      finish-mirror request inventory w w₁ f w' r g (
        inventory_reconcile-Finish (with_clusters H) (extend_server H V) (extend_conditions H C)
          (fake_service H) request (w, f) w' h)
