-- ===== src/System/Completion.antt =====
-- The instance controller over the provider cloud: the details of a cluster that an instance has.
use provider_operator_exampl.System.Provisioning.{create_cloud_service-ok}
use provider_operator_exampl.Host.{done, Host}
use provider_operator_exampl.Inventory.{secret_selector}
use provider_operator_exampl.Api.{
  InstanceStatus, ready, Secret, pending, ProviderInventory, ObjectKey, ProviderInstance,
}
use provider_operator_exampl.Instance.{reconcile, with_status, with_phase, record_cluster}
use provider_operator_exampl.Service.{Cluster}
use provider_operator_exampl.FakeClusters.{new_fake_clusters, FakeClusters, find_cluster}
use provider_operator_exampl.FakeService.Extend.{with_clusters, lift}
use provider_operator_exampl.Base.{
  ◌∙◌, ap, [], String-dec, ◌∷◌, ok, arith, some, All, ◌≢◌, ◌≡◌, List, String,
}
use provider_operator_exampl.Host.Server.{key_of, Server}
use provider_operator_exampl.Base.Dict.{Dict}
use provider_operator_exampl.FakeService.Laws.{reachable-HasTimes, populate-HasTimes, HasTimes}
use provider_operator_exampl.Service.Info.{populate_instance_info}
use provider_operator_exampl.FakeClusters.Steps.{Reach}
use provider_operator_exampl.FakeService.{get_cluster, fake_service}
use provider_operator_exampl.FakeClusters.Steps.Growth.{find_cluster-id}

module _ (H : Host) where
  open H use {World, Err}

  -- The instance that the last step stores.
  abbrev completed : ProviderInstance → Cluster → Dict String → ProviderInstance
  completed instance c info =
      with_phase
        (with_status (with_phase instance pending) (record (with_phase instance pending).status {
          instance_id = c.id;
          instance_info = info;
        }))
        ready

  record_cluster-completed :
      (instance y : ProviderInstance) (c : Cluster) (info : Dict String) (w w₁ : World)
      (f : FakeClusters)
      → c.id ≢ ""
      → populate_instance_info c ≡ some info
      → H.update_instance_status (completed instance c info) w ≡ ok y w₁
      → record_cluster (with_clusters H) (with_phase instance pending) (some c) (w, f)
        ≡ ok done (w₁, f)
  unfolding record_cluster lift
  record_cluster-completed instance y c info w w₁ f named p u = ground arith

  get_cluster-found :
      (id : String) (w : World) (f : FakeClusters) (c : Cluster)
      → find_cluster id f.clusters ≡ some c
      → get_cluster H tt id (w, f) ≡ ok (some c) (w, f)
  unfolding get_cluster
  get_cluster-found id w f c e = ground arith

  HasTimes-found :
      (id : String) (cs : List Cluster) (c : Cluster)
      → All HasTimes cs
      → find_cluster id cs ≡ some c
      → HasTimes c
  unfolding find_cluster
  HasTimes-found id [] c h e = absurd (ground arith)
  HasTimes-found id (d ∷ cs) c (h, hs) e = elim (String-dec d.id id) [
    | yes same ↦ let eq : d ≡ c = ground arith in rw eq at h
    | no differ ↦ HasTimes-found id cs c hs (ground arith)
  ]

  -- In every state that the provider cloud reaches, where its inventory and the secret can be read
  -- and the status can be updated, an instance whose identifier is that of a listed cluster is
  -- made ready: the reconciliation ends well, leaves the cloud alone, and stores the phase Ready
  -- and the details of the cluster, under the same identifier.
  pub instance_completed :
      (V : Server H) (request : ObjectKey) (instance : ProviderInstance)
      (inventory : ProviderInventory) (secret : Secret) (c : Cluster) (w w₁ w₂ w₃ : World)
      (f : FakeClusters)
      → Reach new_fake_clusters f
      → H.get_instance request w ≡ ok instance w₁
      → H.get_inventory instance.spec.inventory_ref w₁ ≡ ok inventory w₂
      → H.get_secret (secret_selector inventory) w₂ ≡ ok secret w₃
      → ((x : ProviderInstance)
          → (y : ProviderInstance) × (w₄ : World) × (H.update_instance_status x w₃ ≡ ok y w₄))
      → instance.status.instance_id ≢ ""
      → find_cluster instance.status.instance_id f.clusters ≡ some c
      → (object : ProviderInstance) × (w₄ : World) × (reconcile
            (with_clusters H)
            (fake_service H)
            request
            (w, f)
          ≡ ok done (w₄, f))
        × (V.instance_at w₄ (key_of instance.metadata) ≡ some object)
        × (object.status.instance_id ≡ instance.status.instance_id)
        × (populate_instance_info c ≡ some object.status.instance_info)
        × (object.status.phase ≡ ready)
  unfolding reconcile lift
  instance_completed V request instance inventory secret c w w₁ w₂ w₃ f r g i s writes named found =
      let same = find_cluster-id instance.status.instance_id f.clusters c found in
      let (info, p) =
        populate-HasTimes c (
          HasTimes-found instance.status.instance_id f.clusters c (reachable-HasTimes f r) found) in
      let (y, w₄, u) = writes (completed instance c info) in
      let (object, at, status, _, _, _) = V.instance_stored (completed instance c info) y w₃ w₄ u in
      let made = create_cloud_service-ok H (secret_selector inventory) secret w₂ w₃ f s in
      let got = get_cluster-found instance.status.instance_id w₃ f c found in
      let recorded = record_cluster-completed instance y c info w₃ w₄ f (rw same named) p u in
      (
        object,
        w₄,
        ground arith,
        at,
        ap (λ (t : InstanceStatus). t.instance_id) status ∙ same,
        rw status p,
        ap (λ (t : InstanceStatus). t.phase) status,
      )
