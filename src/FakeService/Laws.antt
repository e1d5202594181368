-- ===== src/FakeService/Laws.antt =====
-- The provider service over every state that the provider cloud reaches.
use provider_operator_exampl.Host.{Host}
use provider_operator_exampl.FakeService.{
  service_of, discover_list, create_cloud_service, discover_clusters,
}
use provider_operator_exampl.Service.Info.{base_info, add_regions, populate_instance_info}
use provider_operator_exampl.Base.{
  refl, [], arith, ok, ap, ◌∷◌, err, map, some, ◌≢◌, All, String, ◌≡◌, List,
}
use provider_operator_exampl.Service.{Cluster}
use provider_operator_exampl.Base.Dict.{Dict}
use provider_operator_exampl.FakeClusters.{new_fake_clusters, a_date, FakeClusters}
use provider_operator_exampl.Api.{ObjectKey, DatabaseService}
use provider_operator_exampl.FakeClusters.Steps.Invariant.{reachable-Inv, IsCreated}
use provider_operator_exampl.FakeClusters.Steps.{Reach}

-- Both times of a cluster are set, so its details can be read.
abbrev pub HasTimes : Cluster → Type 0
HasTimes c = (c.created_at ≡ some a_date) × (c.updated_at ≡ some a_date)

pub populate-HasTimes :
    (c : Cluster) → HasTimes c → (info : Dict String) × (populate_instance_info c ≡ some info)
unfolding populate_instance_info
populate-HasTimes c (p, q) = (add_regions 0 c.regions (base_info c a_date a_date), ground arith)

abbrev pub Lists : List DatabaseService → List Cluster → Type 0
Lists services cs =
    (map (λ (s : DatabaseService). s.service_id) services ≡ map (λ (c : Cluster). c.id) cs)
    × (map (λ (s : DatabaseService). s.service_name) services ≡ map (λ (c : Cluster). c.name) cs)

discover_list-HasTimes :
    (cs : List Cluster)
    → All HasTimes cs
    → (services : List DatabaseService) × (discover_list cs ≡ some services) × Lists services cs
unfolding discover_list
discover_list-HasTimes [] h = ([], refl, (refl, refl))
discover_list-HasTimes (c ∷ cs) (h, hs) =
    let (info, p) = populate-HasTimes c h in
    let (services, d, (i, n)) = discover_list-HasTimes cs hs in
    (
      service_of c info ∷ services,
      ground arith,
      (ap (λ (l : List String). c.id ∷ l) i, ap (λ (l : List String). c.name ∷ l) n),
    )

created-HasTimes : (cs : List Cluster) → All IsCreated cs → All HasTimes cs
created-HasTimes [] h = tt
created-HasTimes (c ∷ cs) (h, hs) = (
  (ap (λ (x : Cluster). x.created_at) h.made, ap (λ (x : Cluster). x.updated_at) h.made),
  created-HasTimes cs hs,
)

pub reachable-HasTimes : (f : FakeClusters) → Reach new_fake_clusters f → All HasTimes f.clusters
reachable-HasTimes f r =
    let i = reachable-Inv r in
    rw i.listed
      ((refl, refl), ((refl, refl), ((refl, refl), created-HasTimes i.added i.added_created)))

-- In every state that the provider cloud reaches, discovery succeeds and changes nothing, and lists
-- the identifiers and the names of all clusters in order.
pub reachable_discover :
    (H : Host) (w : H.World) (f : FakeClusters)
    → Reach new_fake_clusters f
    → (services : List DatabaseService) × (discover_clusters H tt (w, f) ≡ ok services (w, f))
      × Lists services f.clusters
unfolding discover_clusters
reachable_discover H w f r =
    let (services, d, l) = discover_list-HasTimes f.clusters (reachable-HasTimes f r) in
    (services, ground arith, l)

-- Whatever the secret holds, and also where it cannot be read, the API client is created.
pub create_cloud_service-ne-err :
    (H : Host) (selector : ObjectKey) (w w' : H.World × FakeClusters) (e : H.Err)
    → create_cloud_service H selector w ≢ err e w'
unfolding create_cloud_service
create_cloud_service-ne-err H selector w w' e h = ground arith
