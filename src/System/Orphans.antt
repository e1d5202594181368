-- ===== src/System/Orphans.antt =====
-- The instance controller over the provider cloud: a cluster whose identifier was not stored.
use provider_operator_exampl.Host.{Host, Reply, failed, retried}
use provider_operator_exampl.Host.Server.{Server, SetsConditions}
use provider_operator_exampl.FakeService.Lifted.{extend_server, extend_conditions}
use provider_operator_exampl.Instance.Status.{
  Written, Refused, instance_update_status-Written, update_status-Refused,
}
use provider_operator_exampl.Instance.{with_phase, reconcile, abandon, update_status}
use provider_operator_exampl.FakeService.{
  get_cluster_parameter, create_cluster, create_cloud_service, fake_service,
}
use provider_operator_exampl.FakeService.Extend.{with_clusters, lift}
use provider_operator_exampl.FakeService.Creation.{request_of}
use provider_operator_exampl.System.Mirror.{create_cloud_service_keeps}
use provider_operator_exampl.Api.{
  condition_false, creating, provisioning_name, ProviderInventory, ObjectKey, ProviderInstance,
}
use provider_operator_exampl.FakeClusters.{cluster_id, find_cluster, FakeClusters, judge}
use provider_operator_exampl.Api.Reasons.{backend_error}
use provider_operator_exampl.Base.{
  inr, inl, has_suffix, answered, panicked, Bool-cases, ◌<>◌, refused, String-dec, ran, arith, err,
  some, ok, ◌≡◌, ◌∙◌, String,
}
use provider_operator_exampl.Service.{Cluster}
use provider_operator_exampl.Inventory.{secret_selector}
use provider_operator_exampl.FakeService.Laws.{create_cloud_service-ne-err}

module _ (H : Host) where
  open H use {World, Err}

  create_cluster_existing :
      (instance : ProviderInstance) (w : World) (f : FakeClusters) (c : Cluster)
      → find_cluster (cluster_id (request_of instance)) f.clusters ≡ some c
      → (e : Err) × (create_cluster H tt instance (w, f) ≡ err e (w, f))
  unfolding create_cluster judge
  create_cluster_existing instance w f c there =
      elim (String-dec (get_cluster_parameter instance provisioning_name) "") [
        | yes blank ↦ (
          H.new_error ("parameter " <> (H.provisioning_name_text <> " is required")),
          ground arith,
        )
        | no named ↦
            elim (Bool-cases (
              has_suffix (get_cluster_parameter instance provisioning_name)
                "invalid-cluster-creation-request")) [
                  | inl bad ↦
                      (H.new_error "{\"code\": 0, \"message\": \"creation failed\"}", ground arith)
                  | inr fine ↦ (
                    H.new_error "{\"code\": 6, \"message\": \"code = AlreadyExists\"}",
                    ground arith,
                  )
                ]
      ]

module _ (H : Host) (V : Server H) (C : SetsConditions H) where
  open H use {World, Err}

  abbrev Reports : ProviderInstance → String → World × FakeClusters → World × FakeClusters → Type 0
  Reports instance message w w' =
      Written (with_clusters H) (extend_server H V) (extend_conditions H C)
        (with_phase instance creating) condition_false backend_error message w w'

  -- How a reconciliation ends whose CreateCluster fails: its error is returned, and written in the
  -- phase Creating, or that write met a conflict; or the write was refused, and its error is returned.
  pub data Stuck (instance : ProviderInstance) (r : Reply Err) (w' : World × FakeClusters)
      : Type 0 where
    reports :
        (e : Err) (w : World × FakeClusters)
        → create_cluster H tt (with_phase instance creating) w ≡ err e w
        → Reports instance (H.error_text e) w w'
        → r ≡ failed e
        → Stuck instance r w'
    silent :
        (e x : Err) (w : World × FakeClusters)
        → create_cluster H tt (with_phase instance creating) w ≡ err e w
        → Refused
            (with_clusters H)
            (extend_server H V)
            (extend_conditions H C)
            (with_phase instance creating)
            condition_false
            backend_error
            (H.error_text e)
            x
            w
            w'
        → r ≡ retried x
        → Stuck instance r w'

  abandon-Stuck :
      (instance : ProviderInstance) (e : Err) (w w' : World × FakeClusters) (r : Reply Err)
      → create_cluster H tt (with_phase instance creating) w ≡ err e w
      → abandon (with_clusters H) (with_phase instance creating) backend_error e w ≡ ok r w'
      → Stuck instance r w'
  unfolding abandon
  abandon-Stuck instance e w w' r c h =
      let x = with_phase instance creating in
      let text = H.error_text e in
      elim (ran (update_status (with_clusters H) x condition_false backend_error text w)) [
        | answered y w₁ u ↦
            reports e w c
              (instance_update_status-Written (with_clusters H) (extend_server H V)
                (extend_conditions H C) x y condition_false backend_error text w w' (ground arith))
              (ground arith)
        | refused y w₁ u ↦
            let (z, _) =
              update_status-Refused (with_clusters H) (extend_server H V) (extend_conditions H C) x
                condition_false backend_error text y w w' (ground arith) in
            silent e y w c z (ground arith)
        | panicked w₁ u ↦ absurd (ground arith)
      ]

  abandon_keeps :
      (instance : ProviderInstance) (e : Err) (w w' : World × FakeClusters) (r : Reply Err)
      → abandon (with_clusters H) instance backend_error e w ≡ ok r w'
      → w'.1 ≡ w.1
  unfolding abandon update_status lift
  abandon_keeps instance e w w' r h = ground arith

  -- An instance that has no identifier, though the cloud has the cluster of its name, is not made
  -- ready: every reconciliation of it that returns, with its inventory there, leaves the cloud as it
  -- was and ends with the error of CreateCluster or of a refused write. What it has stored has the phase Creating, the blank identifier and
  -- a condition that says BackendError, unless the write met a conflict or was refused.
  pub orphan_fails :
      (request : ObjectKey) (instance : ProviderInstance) (inventory : ProviderInventory)
      (w w₁ w₂ : World) (f : FakeClusters) (c : Cluster) (r : Reply Err) (w' : World × FakeClusters)
      → H.get_instance request w ≡ ok instance w₁
      → H.get_inventory instance.spec.inventory_ref w₁ ≡ ok inventory w₂
      → instance.status.instance_id ≡ ""
      → find_cluster (cluster_id (request_of instance)) f.clusters ≡ some c
      → reconcile (with_clusters H) (fake_service H) request (w, f) ≡ ok r w'
      → Stuck instance r w' × (w'.1 ≡ f)
  unfolding reconcile lift get_cluster_parameter
  orphan_fails request instance inventory w w₁ w₂ f c r w' g i blank there h =
      elim (ran (create_cloud_service H (secret_selector inventory) (w₂, f))) [
        | refused e w₃ u ↦
            absurd (create_cloud_service-ne-err H (secret_selector inventory) (w₂, f) w₃ e u)
        | panicked w₃ u ↦ absurd (ground arith)
        | answered t w₃ u ↦
            let kept = create_cloud_service_keeps H (secret_selector inventory) w₂ f w₃ u in
            let (e, failed_there) =
              create_cluster_existing H (with_phase instance creating) w₃.0 w₃.1 c
                (rw kept there) in
            let end : abandon (with_clusters H) (with_phase instance creating) backend_error e w₃
                ≡ ok r w' =
              ground arith in
            (
              abandon-Stuck instance e w₃ w' r failed_there end,
              abandon_keeps (with_phase instance creating) e w₃ w' r end ∙ kept,
            )
      ]
