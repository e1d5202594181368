-- ===== src/System/Provisioning.antt =====
-- The instance controller over the provider cloud: a cluster for an instance that has none.
use text.Mathlib.TextLemmas.{cons-append}
use provider_operator_exampl.Host.{Host, done}
use provider_operator_exampl.Host.Server.{Server, key_of}
use provider_operator_exampl.Instance.{with_phase, with_status, reconcile, record_cluster}
use provider_operator_exampl.FakeService.{
  get_cluster_parameter, create_cluster, create_cloud_service, fake_service, send,
}
use provider_operator_exampl.FakeService.Extend.{with_clusters, lift}
use provider_operator_exampl.FakeService.Creation.{request_of}
use provider_operator_exampl.FakeService.Laws.{populate-HasTimes}
use provider_operator_exampl.Api.{
  creating, provisioning_name, ProviderInventory, ObjectKey, ProviderInstance, ready, Secret,
  InstanceStatus,
}
use provider_operator_exampl.FakeClusters.{
  CreateClusterRequest, cluster_id, FakeClusters, judge, accepted,
}
use provider_operator_exampl.FakeClusters.Steps.Races.{judge-find_cluster}
use provider_operator_exampl.Base.{first_code, some, String, sym, ok, ◌≢◌, ◌≡◌, ap, ◌∙◌, arith}
use provider_operator_exampl.Base.Dict.{Dict}
use provider_operator_exampl.Service.{Cluster}
use provider_operator_exampl.Service.Info.{populate_instance_info}
use provider_operator_exampl.Inventory.{secret_selector}

cluster_id-ne : (request : CreateClusterRequest) → cluster_id request ≢ ""
cluster_id-ne request e =
    let first : first_code (cluster_id request) ≡ b'a' =
      ap first_code (cons-append _ "-cluster-instance-id-" request.name) in
    let nothing : first_code (cluster_id request) ≡ 0 = ap first_code e in omega arith

module _ (H : Host) where
  open H use {World, Err}

  pub create_cloud_service-ok :
      (k : ObjectKey) (secret : Secret) (w w₁ : World) (f : FakeClusters)
      → H.get_secret k w ≡ ok secret w₁
      → create_cloud_service H k (w, f) ≡ ok tt (w₁, f)
  unfolding create_cloud_service lift
  create_cloud_service-ok k secret w w₁ f g = ground arith

  create_cluster-accepted :
      (instance : ProviderInstance) (w : World) (f : FakeClusters) (c : Cluster)
      → get_cluster_parameter instance provisioning_name ≢ ""
      → judge (request_of instance) f.clusters ≡ accepted c
      → create_cluster H tt instance (w, f) ≡ ok (some c) (w, send c f)
  unfolding create_cluster
  create_cluster-accepted instance w f c named j = ground arith

  -- The instance that the last step stores.
  abbrev pub provisioned : ProviderInstance → Cluster → Dict String → ProviderInstance
  provisioned instance c info =
      with_phase
        (with_status (with_phase instance creating) (record (with_phase instance creating).status {
          instance_id = c.id;
          instance_info = info;
        }))
        ready

  record_cluster-done :
      (instance y : ProviderInstance) (c : Cluster) (info : Dict String) (w w₁ : World)
      (f : FakeClusters)
      → c.id ≢ ""
      → populate_instance_info c ≡ some info
      → H.update_instance_status (provisioned instance c info) w ≡ ok y w₁
      → record_cluster (with_clusters H) (with_phase instance creating) (some c) (w, f)
        ≡ ok done (w₁, f)
  unfolding record_cluster lift
  record_cluster-done instance y c info w w₁ f named p u = ground arith

  -- Where its inventory and the secret can be read and the status can be updated, an instance that
  -- has no identifier, with a name that is given and accepted by the cloud, is provisioned: the
  -- reconciliation ends well, its cluster is sent to the cloud, and the stored instance carries
  -- the identifier of that cluster and the phase Ready.
  pub instance_provisioned :
      (V : Server H) (request : ObjectKey) (instance : ProviderInstance)
      (inventory : ProviderInventory) (secret : Secret) (c : Cluster) (w w₁ w₂ w₃ : World)
      (f : FakeClusters)
      → H.get_instance request w ≡ ok instance w₁
      → H.get_inventory instance.spec.inventory_ref w₁ ≡ ok inventory w₂
      → H.get_secret (secret_selector inventory) w₂ ≡ ok secret w₃
      → ((x : ProviderInstance)
          → (y : ProviderInstance) × (w₄ : World) × (H.update_instance_status x w₃ ≡ ok y w₄))
      → instance.status.instance_id ≡ ""
      → get_cluster_parameter instance provisioning_name ≢ ""
      → judge (request_of instance) f.clusters ≡ accepted c
      → (object : ProviderInstance) × (w₄ : World) × (reconcile
            (with_clusters H)
            (fake_service H)
            request
            (w, f)
          ≡ ok done (w₄, send c f))
        × (V.instance_at w₄ (key_of instance.metadata) ≡ some object)
        × (object.status.instance_id ≡ c.id)
        × (object.status.phase ≡ ready)
  unfolding reconcile lift get_cluster_parameter
  instance_provisioned V request instance inventory secret c w w₁ w₂ w₃ f g i s writes blank named
        j =
      let (same, _) = judge-find_cluster (request_of instance) f.clusters j in
      let (info, p) =
        populate-HasTimes c
          (ap (λ (x : Cluster). x.created_at) same, ap (λ (x : Cluster). x.updated_at) same) in
      let named_c : c.id ≢ "" =
        λ e. cluster_id-ne (request_of instance) (sym (ap (λ (x : Cluster). x.id) same) ∙ e) in
      let (y, w₄, u) = writes (provisioned instance c info) in
      let (object, at, status, _, _, _) =
        V.instance_stored (provisioned instance c info) y w₃ w₄ u in
      let made = create_cloud_service-ok (secret_selector inventory) secret w₂ w₃ f s in
      let created = create_cluster-accepted (with_phase instance creating) w₃ f c named j in
      let recorded = record_cluster-done instance y c info w₃ w₄ (send c f) named_c p u in
      (
        object,
        w₄,
        ground arith,
        at,
        ap (λ (t : InstanceStatus). t.instance_id) status,
        ap (λ (t : InstanceStatus). t.phase) status,
      )
