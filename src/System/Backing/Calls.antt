-- ===== src/System/Backing/Calls.antt =====
-- The calls of the host and of the provider service keep the identifiers backed.
use provider_operator_exampl.System.Backing.{
  Sightings, KeepsSeen, KeepsInstances, IsBacked, AllBacked, SoundAt,
}
use provider_operator_exampl.FakeClusters.Steps.Growth.{find_cluster-id, all_clusters, more-IsKnown}
use provider_operator_exampl.Host.{Host}
use provider_operator_exampl.Host.Server.{Server}
use provider_operator_exampl.Base.{
  ap, refl, Option-cases, some, world, panicked, err, refused, arith, inr, answered, ran, inl, ◌++◌,
  ok, ◌≡◌, List, M, String,
}
use provider_operator_exampl.FakeClusters.{find_cluster, FakeClusters}
use provider_operator_exampl.Service.Calm.{CalmHost, Any, IsCalm}
use provider_operator_exampl.Service.{Cluster}
use provider_operator_exampl.FakeService.Extend.{with_clusters, lift}
use provider_operator_exampl.FakeService.{create_cloud_service, get_cluster}
use provider_operator_exampl.Api.{InstanceStatus, ProviderInstance, ObjectKey}
use provider_operator_exampl.FakeService.Calm.{find_cluster-IsUsable, create_cloud_service-IsCalm}
use provider_operator_exampl.Instance.Replies.{IsFineCluster}
use provider_operator_exampl.FakeClusters.Lookup.{find_cluster-append}
use provider_operator_exampl.FakeService.Laws.{reachable-HasTimes}

module _ (H : Host) (V : Server H) (Seen : Sightings H) (Good : H.World → Type 0)
    (f₀ : FakeClusters) (L : KeepsInstances H V Seen) where
  pub more-IsBacked :
      (id : String) (f g : FakeClusters) (more : List Cluster)
      → all_clusters g ≡ all_clusters f ++ more
      → IsBacked H V Seen f id
      → IsBacked H V Seen g id
  more-IsBacked id f g more e (inl blank) = inl blank
  more-IsBacked id f g more e (inr known) =
      inr (more-IsKnown id (all_clusters f) (all_clusters g) more e known)

  -- A call of the host that keeps the stored instances.
  lift-SoundAt :
      {A : Type 0} (P : A → Type 0) (m : M H.World H.Err A) (g : FakeClusters)
      → IsCalm Good Any m
      → KeepsSeen H V Seen m
      → ((a : A) (w w' : H.World) → AllBacked H V Seen w g → m w ≡ ok a w' → P a)
      → IsCalm (SoundAt H V Seen Good f₀ g) P (lift m)
  lift-SoundAt P m g calm keeps gives (w, f) ((good, r, backed), same) = elim (ran (m w)) [
    | answered a w₁ e ↦
        let whole : lift m (w, f) ≡ ok a (w₁, f) = unfold lift in ground arith in
        rw whole (
          gives a w w₁ (rw same at backed) e,
          (((rw e at (calm w good)).1, r, λ k y at. backed k y (keeps w k y (rw e at))), same),
        )
    | refused x w₁ e ↦
        let whole : lift m (w, f) ≡ err x (w₁, f) = unfold lift in ground arith in
        rw whole ((rw e at (calm w good), r, λ k y at. backed k y (keeps w k y (rw e at))), same)
    | panicked w₁ e ↦ absurd (rw e at (calm w good))
  ]

  pub any-SoundAt :
      {A : Type 0} (m : M H.World H.Err A) (g : FakeClusters)
      → IsCalm Good Any m
      → KeepsSeen H V Seen m
      → IsCalm (SoundAt H V Seen Good f₀ g) Any (lift m)
  any-SoundAt m g calm keeps = lift-SoundAt Any m g calm keeps (λ a w w' b e. tt)

  module _ (K : CalmHost H Good) (g : FakeClusters) where
    pub get_instance-SoundAt :
        (k : ObjectKey)
        → IsCalm
            (SoundAt H V Seen Good f₀ g)
            (λ x. IsBacked H V Seen g x.status.instance_id)
            (lift (H.get_instance k))
    get_instance-SoundAt k =
        lift-SoundAt (λ x. IsBacked H V Seen g x.status.instance_id) (H.get_instance k) g
          (K.get_instance k) (L.get_instance_keeps k)
          (λ x w w' backed e. backed k x (L.instance_read k x w w' e))

    written-AllBacked :
        (x : ProviderInstance) (w : H.World)
        → IsBacked H V Seen g x.status.instance_id
        → AllBacked H V Seen w g
        → AllBacked H V Seen (world (H.update_instance_status x w)) g
    written-AllBacked x w fine backed k y at = elim (L.instance_written x w k y at) [
      | inl before ↦ backed k y before
      | inr same ↦ rw same fine
    ]

    pub update_instance_status-SoundAt :
        (x : ProviderInstance)
        → IsBacked H V Seen g x.status.instance_id
        → IsCalm
            (SoundAt H V Seen Good f₀ g)
            (λ y. y.status.instance_id ≡ x.status.instance_id)
            (lift (H.update_instance_status x))
    update_instance_status-SoundAt x fine (w, f) ((good, r, backed), same) =
        let after = written-AllBacked x w fine (rw same at backed) in
        elim (ran (H.update_instance_status x w)) [
          | answered a w₁ e ↦
              let whole : lift (H.update_instance_status x) (w, f) ≡ ok a (w₁, f) =
                unfold lift in ground arith in
              let (_, _, _, _, answer, _) = V.instance_stored x a w w₁ e in
              rw whole (
                ap (λ (t : InstanceStatus). t.instance_id) answer,
                (
                  ((rw e at (K.update_instance_status x w good)).1, r, rw same (rw e at after)),
                  same,
                ),
              )
          | refused z w₁ e ↦
              let whole : lift (H.update_instance_status x) (w, f) ≡ err z (w₁, f) =
                unfold lift in ground arith in
              rw whole
                ((rw e at (K.update_instance_status x w good), r, rw same (rw e at after)), same)
          | panicked w₁ e ↦ absurd (rw e at (K.update_instance_status x w good))
        ]

    pub create_cloud_service-SoundAt :
        (k : ObjectKey) → IsCalm (SoundAt H V Seen Good f₀ g) Any (create_cloud_service H k)
    create_cloud_service-SoundAt =
        create_cloud_service-IsCalm H (SoundAt H V Seen Good f₀ g)
          (λ k. any-SoundAt (H.get_secret k) g (K.get_secret k) (L.get_secret_keeps k))

    find_cluster-IsBacked :
        (id : String) (f : FakeClusters) (c : Cluster)
        → find_cluster id f.clusters ≡ some c
        → IsBacked H V Seen f c.id
    find_cluster-IsBacked id f c e =
        rw (find_cluster-id id f.clusters c e) (inr (c, rw (find_cluster-append, e) refl))

    pub get_cluster-SoundAt :
        (id : String)
        → IsCalm
            (SoundAt H V Seen Good f₀ g)
            (IsFineCluster (with_clusters H) (SoundAt H V Seen Good f₀ g) (IsBacked H V Seen g))
            (get_cluster H tt id)
    get_cluster-SoundAt id (w, f) ((good, r, backed), same) =
        elim (Option-cases (find_cluster id f.clusters)) [
          | inl e ↦
              let whole : get_cluster H tt id (w, f)
                  ≡ err (H.new_error "could not find cluster") (w, f) =
                unfold get_cluster in ground arith in
              rw whole ((good, r, backed), same)
          | inr (c, e) ↦
              let whole : get_cluster H tt id (w, f) ≡ ok (some c) (w, f) =
                unfold get_cluster in ground arith in
              rw whole (
                (
                  find_cluster-IsUsable H Good id f.clusters c (reachable-HasTimes f r.0) e,
                  rw same at (find_cluster-IsBacked id f c e),
                ),
                ((good, r, backed), same),
              )
        ]
