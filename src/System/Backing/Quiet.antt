-- ===== src/System/Backing/Quiet.antt =====
-- The controllers of inventories and connections make no status update of an instance and no
-- cluster: they go the same way over a host and a service for which both calls do nothing, and so
-- keep the identifiers backed.
use provider_operator_exampl.FakeService.{create_cloud_service, discover_clusters, get_cluster}
use provider_operator_exampl.System.Backing.{Sightings, KeepsInstances, KeepsSeen, Sound}
use provider_operator_exampl.System.Backing.Calls.{
  any-SoundAt, create_cloud_service-SoundAt, get_cluster-SoundAt,
}
use provider_operator_exampl.Inventory
use provider_operator_exampl.System.Backing.Amid.{Course, amid, host_amid, service_amid}
use provider_operator_exampl.System.Backing.Leaves.{LeavesAmid, Leaves, SoundAt-Leaves, amid-Leaves}
use provider_operator_exampl.System.Backing.Creations.{IsFine}
use provider_operator_exampl.Connection
use provider_operator_exampl.Host.{Host}
use provider_operator_exampl.Base.{panic, Outcome, none, some, Option, refl, M, err, ok, ◌≡◌}
use provider_operator_exampl.Service.{Cluster, ProviderService}
use provider_operator_exampl.FakeService.Extend.{lift}
use provider_operator_exampl.Host.Server.{Server}
use provider_operator_exampl.Service.Calm.{
  Any, IsUsable, IsCalm, CalmService, Replies, CalmHost, Calmly,
}
use provider_operator_exampl.Api.{ObjectKey}
use provider_operator_exampl.FakeClusters.{FakeClusters}
use provider_operator_exampl.Inventory.Replies.{inventory_reconcile-Replies}
use provider_operator_exampl.Connection.Replies.{connection_reconcile-Replies}
use provider_operator_exampl.FakeService.Laws.{reachable_discover}

module _ (H : Host) (V : Server H) (Seen : Sightings H) (Good : H.World → Type 0) where
  abbrev quiet_host : Host
  quiet_host = record (host_amid H V Seen Good) { update_instance_status = λ x w. ok x w }

  abbrev quiet_service : ProviderService quiet_host
  quiet_service = record {
    Cloud = Unit;
    create_cloud_service = (service_amid H V Seen Good).create_cloud_service;
    discover_clusters = (service_amid H V Seen Good).discover_clusters;
    create_cluster = λ _ x w. err (H.new_error "") w;
    get_cluster = (service_amid H V Seen Good).get_cluster;
  }

  inventory_reconcile-quiet :
      (request : ObjectKey)
      → Inventory.reconcile (host_amid H V Seen Good) (service_amid H V Seen Good) request
        ≡ Inventory.reconcile quiet_host quiet_service request
  unfolding Inventory.reconcile Inventory.update_inventory_status
  inventory_reconcile-quiet request = refl

  connection_reconcile-quiet :
      (request : ObjectKey)
      → Connection.reconcile (host_amid H V Seen Good) (service_amid H V Seen Good) request
        ≡ Connection.reconcile quiet_host quiet_service request
  unfolding Connection.reconcile Connection.abandon Connection.create_or_update_secret
      Connection.create_or_update_config_map Connection.bind_connection Connection.mutate_secret
      Connection.mutate_config_map Connection.get_cluster_instance
  connection_reconcile-quiet request = refl

module _ (H : Host) (V : Server H) (Seen : Sightings H) (Good : H.World → Type 0)
    (f₀ : FakeClusters) (L : KeepsInstances H V Seen) (K : CalmHost H Good) where
  abbrev SoundCourse : Course H V Seen Good → Type 0
  SoundCourse w = Sound H V Seen Good f₀ w.0

  LeavesAmid-Sound :
      {A : Type 0} (R : FakeClusters → A → Type 0) (P : A → Type 0) (g : FakeClusters)
      (o : Outcome (Course H V Seen Good) H.Err A)
      → ((f : FakeClusters) (a : A) → R f a → P a)
      → LeavesAmid H V Seen Good f₀ R g o
      → Calmly SoundCourse P o
  LeavesAmid-Sound R P g (ok a w) p (r, sound, more) = (p w.0.1 a r, sound)
  LeavesAmid-Sound R P g (err e w) p (sound, more) = sound
  LeavesAmid-Sound R P g (panic w) p x = x

  -- A call that leaves sound states is calm amid other steps.
  Leaves-Sound :
      {A : Type 0} (R : FakeClusters → A → Type 0) (P : A → Type 0)
      (m : M (H.World × FakeClusters) H.Err A)
      → ((f : FakeClusters) (a : A) → R f a → P a)
      → ((s : H.World × FakeClusters)
          → Sound H V Seen Good f₀ s
          → Leaves H V Seen Good f₀ R s.1 (m s))
      → IsCalm SoundCourse P (amid H V Seen Good m)
  Leaves-Sound R P m p leaves w sound =
      LeavesAmid-Sound R P w.0.1 _ p
        (amid-Leaves H V Seen Good f₀ R m w.0.1 (λ s s₁ _. leaves s s₁) w sound (λ id b. b))

  any-Sound :
      {A : Type 0} (m : M H.World H.Err A)
      → IsCalm Good Any m
      → KeepsSeen H V Seen m
      → IsCalm SoundCourse Any (amid H V Seen Good (lift m))
  any-Sound m calm keeps =
      Leaves-Sound (λ _. Any) Any (lift m) (λ f a r. tt)
        (λ s sound.
          SoundAt-Leaves H V Seen Good f₀ (λ _. Any) s.1 _
            (any-SoundAt H V Seen Good f₀ L m s.1 calm keeps s (sound, refl)))

  quiet_host-CalmHost : CalmHost (quiet_host H V Seen Good) SoundCourse
  quiet_host-CalmHost = record {
    get_inventory = λ k. any-Sound _ (K.get_inventory k) (L.get_inventory_keeps k);
    get_connection = λ k. any-Sound _ (K.get_connection k) (L.get_connection_keeps k);
    get_instance = λ k. any-Sound _ (K.get_instance k) (L.get_instance_keeps k);
    get_secret = λ k. any-Sound _ (K.get_secret k) (L.get_secret_keeps k);
    update_inventory_status =
        λ x. any-Sound _ (K.update_inventory_status x) (L.inventory_status_keeps x);
    update_connection_status =
        λ x. any-Sound _ (K.update_connection_status x) (L.connection_status_keeps x);
    update_instance_status = λ x w s. (tt, s);
    create_or_update_secret =
        λ x f. any-Sound _ (K.create_or_update_secret x f) (L.secret_keeps x f);
    create_or_update_config_map =
        λ x f. any-Sound _ (K.create_or_update_config_map x f) (L.config_map_keeps x f);
  }

  discover_clusters-Leaves :
      (s : H.World × FakeClusters)
      → Sound H V Seen Good f₀ s
      → Leaves H V Seen Good f₀ (λ _. Any) s.1 (discover_clusters H tt s)
  discover_clusters-Leaves (w, f) (good, r, backed) =
      let (services, e, _) = reachable_discover H w f r.0 in rw e (tt, (good, r, backed), λ id b. b)

  fine-IsUsable :
      (f : FakeClusters) (cluster : Option Cluster)
      → IsFine H V Seen Good f₀ L K f cluster
      → IsUsable cluster
  fine-IsUsable f none u = u
  fine-IsUsable f (some c) u = u.0

  quiet_service-CalmService :
      CalmService (quiet_host H V Seen Good) (quiet_service H V Seen Good) SoundCourse
  quiet_service-CalmService = record {
    create_cloud_service = λ k.
        Leaves-Sound (λ _. Any) Any (create_cloud_service H k) (λ f a r. tt)
          (λ s sound.
            SoundAt-Leaves H V Seen Good f₀ (λ _. Any) s.1 _
              (create_cloud_service-SoundAt H V Seen Good f₀ L K s.1 k s (sound, refl)));
    discover_clusters = λ _.
        Leaves-Sound (λ _. Any) Any (discover_clusters H tt) (λ f a r. tt) discover_clusters-Leaves;
    create_cluster = λ _ x w s. s;
    get_cluster = λ _ id.
        Leaves-Sound (IsFine H V Seen Good f₀ L K) IsUsable (get_cluster H tt id) fine-IsUsable
          (λ s sound.
            SoundAt-Leaves H V Seen Good f₀ (IsFine H V Seen Good f₀ L K) s.1 _
              (get_cluster-SoundAt H V Seen Good f₀ L K s.1 id s (sound, refl)));
  }

  pub inventory_reconcile-Sound :
      (request : ObjectKey)
      → Replies SoundCourse
          (Inventory.reconcile (host_amid H V Seen Good) (service_amid H V Seen Good) request)
  inventory_reconcile-Sound request = rw (inventory_reconcile-quiet H V Seen Good request) (
      inventory_reconcile-Replies (quiet_host H V Seen Good) SoundCourse quiet_host-CalmHost
        (quiet_service H V Seen Good) quiet_service-CalmService request)

  pub connection_reconcile-Sound :
      (request : ObjectKey)
      → Replies SoundCourse
          (Connection.reconcile (host_amid H V Seen Good) (service_amid H V Seen Good) request)
  connection_reconcile-Sound request = rw (connection_reconcile-quiet H V Seen Good request) (
      connection_reconcile-Replies (quiet_host H V Seen Good) SoundCourse quiet_host-CalmHost
        (quiet_service H V Seen Good) quiet_service-CalmService request)
