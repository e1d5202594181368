-- ===== src/FakeService/Calm.antt =====
-- The provider service over the provider cloud does not panic.
use provider_operator_exampl.Base.{
  if◌then◌else◌, ◌==◌, ok, [], String-dec, ◌∷◌, refl, inr, panicked, arith, some, refused, inl, ◌≢◌,
  ◌≡◌, answered, Option-cases, ran, String, List, All, err, panic, M,
}
use provider_operator_exampl.Host.{Host}
use provider_operator_exampl.Service.Calm.{
  CalmHost, CalmService, Calmly, IsCalm, IsUsable, proceed-holds, either, Any,
}
use provider_operator_exampl.FakeClusters.{
  a_date, judge, FakeClusters, new_fake_clusters, find_cluster,
}
use provider_operator_exampl.FakeClusters.Steps.{Reach}
use provider_operator_exampl.FakeService.{
  Credential, text_at, retrieve_client_credential, create_cloud_service, discover_clusters,
  get_cluster, create_cluster, fake_service,
}
use provider_operator_exampl.FakeService.Extend.{lift, with_clusters}
use provider_operator_exampl.FakeService.Laws.{HasTimes, reachable-HasTimes, reachable_discover}
use provider_operator_exampl.FakeService.Creation.{create_cluster-ok, create_cluster-Reach}
use provider_operator_exampl.Api.{ObjectKey, ProviderInstance}
use provider_operator_exampl.Service.{Cluster}

-- Making the API client, wherever the secret is read calmly.
module _ (H : Host) (G : H.World × FakeClusters → Type 0)
    (secrets : (k : ObjectKey) → IsCalm G Any (lift (H.get_secret k))) where
  retrieve_client_credential-IsCalm :
      (k : ObjectKey) → IsCalm G Any (retrieve_client_credential H k)
  unfolding retrieve_client_credential
  retrieve_client_credential-IsCalm k w good =
      proceed-holds G Any (Calmly G Any) _ _ _ (secrets k w good)
        (λ secret w₁ _ g.
          let field1 = text_at "CredentialField1" secret.contents in
          let field2 = text_at "CredentialField2" secret.contents in
          let last : Credential = record {
            credential_field1 = field1;
            credential_field2 = field2;
          } in
          either G (Calmly G Any) (field1 == "") (err _ w₁)
            (if field2 == "" then err _ w₁ else ok last w₁) g
            (either G (Calmly G Any) (field2 == "") (err _ w₁) (ok last w₁) g (tt, g)))
        (λ e w₁ g. g)

  pub create_cloud_service-IsCalm : (k : ObjectKey) → IsCalm G Any (create_cloud_service H k)
  unfolding create_cloud_service
  create_cloud_service-IsCalm k w good =
      proceed-holds G Any (Calmly G Any) _ _ _ (retrieve_client_credential-IsCalm k w good)
        (λ _ w₁ _ g. (tt, g)) (λ _ w₁ g. (tt, g))

module _ (H : Host) (Good : H.World → Type 0) where
  -- A good world of the host, and a cloud that is reached from the start.
  abbrev pub IsGood : H.World × FakeClusters → Type 0
  IsGood (w, f) = Good w × Reach new_fake_clusters f

  lift-IsCalm :
      {A : Type 0} (m : M H.World H.Err A) → IsCalm Good Any m → IsCalm IsGood Any (lift m)
  lift-IsCalm {A} m c (w, f) (g, r) = elim (ran (m w)) [
    | answered a w₁ e ↦
        let whole : lift m (w, f) ≡ ok a (w₁, f) = unfold lift in ground arith in
        rw whole (tt, ((rw e at (c w g)).1, r))
    | refused x w₁ e ↦
        let whole : lift m (w, f) ≡ err x (w₁, f) = unfold lift in ground arith in
        rw whole (rw e at (c w g), r)
    | panicked w₁ e ↦ absurd (rw e at (c w g))
  ]

  module _ (K : CalmHost H Good) where
    pub with_clusters-CalmHost : CalmHost (with_clusters H) IsGood
    with_clusters-CalmHost = record {
      get_inventory = λ k. lift-IsCalm _ (K.get_inventory k);
      get_connection = λ k. lift-IsCalm _ (K.get_connection k);
      get_instance = λ k. lift-IsCalm _ (K.get_instance k);
      get_secret = λ k. lift-IsCalm _ (K.get_secret k);
      update_inventory_status = λ x. lift-IsCalm _ (K.update_inventory_status x);
      update_connection_status = λ x. lift-IsCalm _ (K.update_connection_status x);
      update_instance_status = λ x. lift-IsCalm _ (K.update_instance_status x);
      create_or_update_secret = λ x f. lift-IsCalm _ (K.create_or_update_secret x f);
      create_or_update_config_map = λ x f. lift-IsCalm _ (K.create_or_update_config_map x f);
    }

  discover_clusters-IsCalm : IsCalm IsGood Any (discover_clusters H tt)
  discover_clusters-IsCalm (w, f) (g, r) =
      let (services, e, _) = reachable_discover H w f r in rw e (tt, (g, r))

  pub find_cluster-IsUsable :
      (id : String) (cs : List Cluster) (c : Cluster)
      → All HasTimes cs
      → find_cluster id cs ≡ some c
      → IsUsable (some c)
  unfolding find_cluster
  find_cluster-IsUsable id [] c h e = absurd (ground arith)
  find_cluster-IsUsable id (d ∷ cs) c (h, hs) e = elim (String-dec d.id id) [
    | yes same ↦ let eq : d ≡ c = ground arith in ((a_date, rw eq at h.0), (a_date, rw eq at h.1))
    | no differ ↦ find_cluster-IsUsable id cs c hs (ground arith)
  ]

  get_cluster-IsCalm : (id : String) → IsCalm IsGood IsUsable (get_cluster H tt id)
  get_cluster-IsCalm id (w, f) (g, r) = elim (Option-cases (find_cluster id f.clusters)) [
    | inl e ↦
        let whole : get_cluster H tt id (w, f) ≡ err (H.new_error "could not find cluster") (w, f) =
          unfold get_cluster in ground arith in
        rw whole (g, r)
    | inr (c, e) ↦
        let whole : get_cluster H tt id (w, f) ≡ ok (some c) (w, f) =
          unfold get_cluster in ground arith in
        rw whole (find_cluster-IsUsable id f.clusters c (reachable-HasTimes f r) e, (g, r))
  ]

  pub create_cluster-refused :
      (instance : ProviderInstance) (w w₁ : H.World) (f f₁ : FakeClusters) (x : H.Err)
      → create_cluster H tt instance (w, f) ≡ err x (w₁, f₁)
      → (w₁ ≡ w) × (f₁ ≡ f)
  unfolding create_cluster judge
  create_cluster-refused instance w w₁ f f₁ x h = (ground arith, ground arith)

  pub create_cluster-ne-panic :
      (instance : ProviderInstance) (w w₁ : H.World × FakeClusters)
      → create_cluster H tt instance w ≢ panic w₁
  unfolding create_cluster judge
  create_cluster-ne-panic instance w w₁ h = ground arith

  create_cluster-IsCalm :
      (instance : ProviderInstance) → IsCalm IsGood IsUsable (create_cluster H tt instance)
  create_cluster-IsCalm instance (w, f) (g, r) = elim (ran (create_cluster H tt instance (w, f))) [
    | answered c (w₁, f₁) e ↦
        let (_, _, _, made, same, _) = create_cluster-ok H instance w w₁ f f₁ c e in
        rw (e, made, same)
          (((a_date, refl), (a_date, refl)), (g, create_cluster-Reach H instance w w₁ f f₁ c r e))
    | refused x (w₁, f₁) e ↦
        let (a, b) = create_cluster-refused instance w w₁ f f₁ x e in rw (e, a, b) (g, r)
    | panicked w₁ e ↦ absurd (create_cluster-ne-panic instance (w, f) w₁ e)
  ]

  pub fake_service-CalmService :
      (K : CalmHost H Good) → CalmService (with_clusters H) (fake_service H) IsGood
  fake_service-CalmService K = record {
    create_cloud_service =
        create_cloud_service-IsCalm H IsGood (λ k. lift-IsCalm _ (K.get_secret k));
    discover_clusters = λ _. discover_clusters-IsCalm;
    create_cluster = λ _. create_cluster-IsCalm;
    get_cluster = λ _. get_cluster-IsCalm;
  }
