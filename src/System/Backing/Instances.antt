-- ===== src/System/Backing/Instances.antt =====
-- A reconciliation of an instance over the provider cloud, amid other steps, keeps the identifiers
-- backed.
use provider_operator_exampl.System.Backing.{Sightings, KeepsSeen, KeepsInstances, IsBacked, Sound}
use provider_operator_exampl.System.Backing.Amid.{service_amid, Course, amid, host_amid}
use provider_operator_exampl.System.Backing.Creations.{IsFine, create_amid-Leaves}
use provider_operator_exampl.System.Backing.Leaves.{
  proceed-LeavesAmid, LeavesAmid, SoundSince, SoundAt-Leaves, amid-Leaves, LeavesAmid-Calmly,
}
use provider_operator_exampl.System.Backing.Calls.{
  get_cluster-SoundAt, create_cloud_service-SoundAt, get_instance-SoundAt, any-SoundAt,
  update_instance_status-SoundAt,
}
use provider_operator_exampl.Instance.{reconcile, with_phase, acquire, record_cluster, abandon}
use provider_operator_exampl.Instance.Replies.{
  abandon-Replies, record_cluster-Replies, UpdatesCalmly,
}
use provider_operator_exampl.Host.{Reply, Host}
use provider_operator_exampl.Host.Server.{Server}
use provider_operator_exampl.Service.Calm.{reply, either, Any, IsCalm, Replied, CalmHost}
use provider_operator_exampl.FakeClusters.{FakeClusters}
use provider_operator_exampl.Base.{refl, ◌≡◌, Option, M, Outcome}
use provider_operator_exampl.Api.{unknown, pending, creating, ObjectKey, ProviderInstance}
use provider_operator_exampl.FakeService.{get_cluster, create_cloud_service}
use provider_operator_exampl.Api.Reasons.{inventory_not_found, backend_error, ConditionReason}
use provider_operator_exampl.FakeService.Extend.{lift}
use provider_operator_exampl.Inventory.{secret_selector}
use provider_operator_exampl.Service.{Cluster}

module _ (H : Host) (V : Server H) (Seen : Sightings H) (Good : H.World → Type 0)
    (f₀ : FakeClusters) (L : KeepsInstances H V Seen) (K : CalmHost H Good) where
  abbrev SoundReply : Outcome (Course H V Seen Good) H.Err (Reply H.Err) → Type 0
  SoundReply = Replied (λ w. Sound H V Seen Good f₀ w.0)

  since_reply :
      (g : FakeClusters) (o : Outcome (Course H V Seen Good) H.Err (Reply H.Err))
      → Replied (SoundSince H V Seen Good f₀ g) o
      → SoundReply o
  since_reply g o r = record {
    value = r.value;
    after = r.after;
    replied = r.replied;
    good = r.good.0;
  }

  module _ (g : FakeClusters) where
    -- A call of the host that keeps the instances, amid other steps.
    kept :
        {A : Type 0} (m : M H.World H.Err A)
        → IsCalm Good Any m
        → KeepsSeen H V Seen m
        → (w : Course H V Seen Good) → SoundSince H V Seen Good f₀ g w
        → LeavesAmid H V Seen Good f₀ (λ _. Any) g (amid H V Seen Good (lift m) w)
    kept m calm keeps w (sound, grown) =
        amid-Leaves H V Seen Good f₀ (λ _. Any) (lift m) g
          (λ s s₁ _.
            SoundAt-Leaves H V Seen Good f₀ (λ _. Any) s.1 _
              (any-SoundAt H V Seen Good f₀ L m s.1 calm keeps s (s₁, refl)))
          w sound grown

    updates :
        UpdatesCalmly
          (host_amid H V Seen Good)
          (SoundSince H V Seen Good f₀ g)
          (IsBacked H V Seen g)
    updates x fine w (sound, grown) =
        let Same : FakeClusters → ProviderInstance → Type 0 =
          λ _ y. y.status.instance_id ≡ x.status.instance_id in
        LeavesAmid-Calmly H V Seen Good f₀ Same (λ y. IsBacked H V Seen g y.status.instance_id) g _
          (λ f y _ same. rw same fine)
          (amid-Leaves H V Seen Good f₀ Same (lift (H.update_instance_status x)) g
            (λ s s₁ more. SoundAt-Leaves H V Seen Good f₀ Same s.1 _ (
              update_instance_status-SoundAt H V Seen Good f₀ L K s.1 x (more _ fine) s (s₁, refl)))
            w sound grown)

    abandon-Sound :
        (instance : ProviderInstance) (reason : ConditionReason) (e : H.Err)
        → IsBacked H V Seen g instance.status.instance_id
        → (w : Course H V Seen Good) → SoundSince H V Seen Good f₀ g w
        → SoundReply (abandon (host_amid H V Seen Good) instance reason e w)
    abandon-Sound instance reason e fine w s = since_reply g _ (
        abandon-Replies (host_amid H V Seen Good) (SoundSince H V Seen Good f₀ g)
          (IsBacked H V Seen g) updates instance reason e fine w s)

    record_cluster-Sound :
        (instance : ProviderInstance) (cluster : Option Cluster)
        → IsBacked H V Seen g instance.status.instance_id
        → IsFine H V Seen Good f₀ L K g cluster
        → (w : Course H V Seen Good) → SoundSince H V Seen Good f₀ g w
        → SoundReply (record_cluster (host_amid H V Seen Good) instance cluster w)
    record_cluster-Sound instance cluster fine u w s = since_reply g _ (
        record_cluster-Replies (host_amid H V Seen Good) (SoundSince H V Seen Good f₀ g)
          (IsBacked H V Seen g) updates instance cluster fine u w s)

  acquire-Sound :
      (instance : ProviderInstance) (g : FakeClusters)
      → IsBacked H V Seen g instance.status.instance_id
      → (w : Course H V Seen Good) → SoundSince H V Seen Good f₀ g w
      → SoundReply (acquire (host_amid H V Seen Good) (service_amid H V Seen Good) instance tt w)
  acquire-Sound instance g fine w (sound, grown) =
      let new = with_phase instance creating in
      either (λ w. Sound H V Seen Good f₀ w.0) SoundReply _ _ _
        (proceed-LeavesAmid H V Seen Good f₀ (IsFine H V Seen Good f₀ L K) SoundReply g _ _ _
          (create_amid-Leaves H V Seen Good f₀ L K new g w sound grown)
          (λ cluster w₁ u s more. record_cluster-Sound w₁.0.1 new cluster (more _ fine) u w₁ s)
          (λ x. abandon-Sound g new backend_error x fine))
        (proceed-LeavesAmid H V Seen Good f₀ (IsFine H V Seen Good f₀ L K) SoundReply g _ _ _
          (amid-Leaves H V Seen Good f₀ (IsFine H V Seen Good f₀ L K)
            (get_cluster H tt instance.status.instance_id) g
            (λ s s₁ _. SoundAt-Leaves H V Seen Good f₀ (IsFine H V Seen Good f₀ L K) s.1 _ (
              get_cluster-SoundAt H V Seen Good f₀ L K s.1 instance.status.instance_id s
                (s₁, refl)))
            w sound grown)
          (λ cluster w₁ u s more. record_cluster-Sound w₁.0.1 instance cluster (more _ fine) u w₁ s)
          (λ x. abandon-Sound g instance backend_error x fine))

  -- Every reconciliation of an instance returns, and leaves the identifiers backed.
  pub instance_reconcile-Sound :
      (request : ObjectKey) (w : Course H V Seen Good)
      → Sound H V Seen Good f₀ w.0
      → SoundReply (reconcile (host_amid H V Seen Good) (service_amid H V Seen Good) request w)
  unfolding reconcile
  instance_reconcile-Sound request w sound =
      let Fine : FakeClusters → ProviderInstance → Type 0 =
        λ f x. IsBacked H V Seen f x.status.instance_id in
      let start = w.0.1 in
      proceed-LeavesAmid H V Seen Good f₀ Fine SoundReply start _ _ _
        (amid-Leaves H V Seen Good f₀ Fine (lift (H.get_instance request)) start
          (λ s s₁ _.
            SoundAt-Leaves H V Seen Good f₀ Fine s.1 _
              (get_instance-SoundAt H V Seen Good f₀ L K s.1 request s (s₁, refl)))
          w sound (λ id b. b))
        (λ instance w₁ fine s₁ _.
          proceed-LeavesAmid H V Seen Good f₀ (λ _. Any) SoundReply w₁.0.1 _ _ _
            (kept w₁.0.1 (H.get_inventory instance.spec.inventory_ref) (K.get_inventory _)
              (L.get_inventory_keeps _) w₁ s₁)
            (λ inventory w₂ _ s₂ more₂.
              proceed-LeavesAmid H V Seen Good f₀ (λ _. Any) SoundReply w₂.0.1 _ _ _
                (amid-Leaves H V Seen Good f₀ (λ _. Any)
                  (create_cloud_service H (secret_selector inventory)) w₂.0.1
                  (λ s s' _.
                    SoundAt-Leaves H V Seen Good f₀ (λ _. Any) s.1 _
                      (create_cloud_service-SoundAt H V Seen Good f₀ L K s.1 _ s (s', refl)))
                  w₂ s₂.0 s₂.1)
                (λ cloud w₃ _ s₃ more₃.
                  acquire-Sound (with_phase instance pending) w₃.0.1 (more₃ _ (more₂ _ fine)) w₃ s₃)
                (λ x.
                  abandon-Sound w₂.0.1 (with_phase instance pending) backend_error x
                    (more₂ _ fine)))
            (λ x w₂ s₂.
              either (λ w. Sound H V Seen Good f₀ w.0) SoundReply _ _ _
                (abandon-Sound w₁.0.1 (with_phase instance unknown) inventory_not_found x fine w₂
                  s₂)
                (reply (λ w. Sound H V Seen Good f₀ w.0) _ w₂ s₂.0)))
        (λ x w₁ s₁.
          either (λ w. Sound H V Seen Good f₀ w.0) SoundReply _ _ _
            (reply (λ w. Sound H V Seen Good f₀ w.0) _ w₁ s₁.0)
            (reply (λ w. Sound H V Seen Good f₀ w.0) _ w₁ s₁.0))
