-- ===== src/System/Jobs.antt =====
-- The three reconcilers of main.go over one host and one provider cloud, called one after another.
use provider_operator_exampl.Base.{err, proceed, List, [], ◌∷◌, M, ok}
use provider_operator_exampl.Api.{ObjectKey}
use provider_operator_exampl.Host.{Host, Reply}
use provider_operator_exampl.Service.Calm.{Replied, reply, CalmHost, Replies}
use provider_operator_exampl.FakeService.{fake_service}
use provider_operator_exampl.FakeService.Extend.{with_clusters}
use provider_operator_exampl.FakeService.Calm.{
  IsGood, with_clusters-CalmHost, fake_service-CalmService,
}
use provider_operator_exampl.FakeClusters.{new_fake_clusters, FakeClusters}
use provider_operator_exampl.Inventory
use provider_operator_exampl.Connection
use provider_operator_exampl.Instance
use provider_operator_exampl.Inventory.Replies.{inventory_reconcile-Replies}
use provider_operator_exampl.Connection.Replies.{connection_reconcile-Replies}
use provider_operator_exampl.Instance.Replies.{instance_reconcile-Replies}
use provider_operator_exampl.FakeClusters.Steps.{Reach}

-- A request that a controller takes from its queue.
pub data Job : Type 0 where
  inventory_job connection_job instance_job : ObjectKey → Job

module _ (H : Host) where
  abbrev pub perform : Job → M (H.World × FakeClusters) H.Err (Reply H.Err)
  perform (inventory_job k) = Inventory.reconcile (with_clusters H) (fake_service H) k
  perform (connection_job k) = Connection.reconcile (with_clusters H) (fake_service H) k
  perform (instance_job k) = Instance.reconcile (with_clusters H) (fake_service H) k

  -- The jobs in order; what each asks for afterwards is in the list, if it is granted.
  unfoldable pub perform_all : List Job → M (H.World × FakeClusters) H.Err (List (Reply H.Err))
  perform_all [] w = ok [] w
  perform_all (job ∷ jobs) w =
      proceed (perform job w)
        (λ r w₁. proceed (perform_all jobs w₁) (λ rs w₂. ok (r ∷ rs) w₂) (λ e w₂. err e w₂))
        (λ e w₁. err e w₁)

module _ (H : Host) (Good : H.World → Type 0) (K : CalmHost H Good) where
  perform-Replies : (job : Job) → Replies (IsGood H Good) (perform H job)
  perform-Replies (inventory_job k) =
      inventory_reconcile-Replies (with_clusters H) (IsGood H Good)
        (with_clusters-CalmHost H Good K) (fake_service H) (fake_service-CalmService H Good K) k
  perform-Replies (connection_job k) =
      connection_reconcile-Replies (with_clusters H) (IsGood H Good)
        (with_clusters-CalmHost H Good K) (fake_service H) (fake_service-CalmService H Good K) k
  perform-Replies (instance_job k) =
      instance_reconcile-Replies (with_clusters H) (IsGood H Good) (with_clusters-CalmHost H Good K)
        (fake_service H) (fake_service-CalmService H Good K) k

  -- Where no call of the host panics in a good world and each leaves one, any sequence of
  -- reconciliations of inventories, connections and instances, from a cloud that is reached from
  -- the start, returns a reply to each, in a good world and with such a cloud.
  pub perform_all-Replied :
      (jobs : List Job) (w : H.World) (f : FakeClusters)
      → Good w
      → Reach new_fake_clusters f
      → Replied (IsGood H Good) (perform_all H jobs (w, f))
  unfolding perform_all
  perform_all-Replied [] w f g r = reply (IsGood H Good) [] (w, f) (g, r)
  perform_all-Replied (job ∷ jobs) w f g r =
      let first = perform-Replies job (w, f) (g, r) in
      let rest = perform_all-Replied jobs first.after.0 first.after.1 first.good.0 first.good.1 in
      record {
        value = first.value ∷ rest.value;
        after = rest.after;
        replied = rw (first.replied, rest.replied);
        good = rest.good;
      }
