-- ===== src/FakeService/Creation.antt =====
-- CreateCluster of the provider service, and the steps of the provider cloud that its send takes.
use mathlib.Core.List.{append-nil, append_assoc}
use provider_operator_exampl.FakeClusters.Steps.Growth.{all_clusters, find_cluster-id}
use provider_operator_exampl.FakeClusters.Steps.Draining.{AddReach, IsIdle, drain_held}
use provider_operator_exampl.Host.{Host}
use provider_operator_exampl.FakeClusters.Steps.{Reach, here, next, create, receive_add, append}
use provider_operator_exampl.Api.{provisioning_name, provisioning_cloud_provider, ProviderInstance}
use provider_operator_exampl.FakeService.{
  send, get_cluster_parameter, serve, create_cluster, get_cluster,
}
use provider_operator_exampl.FakeClusters.{
  channel_capacity, held_list, accepted, new_fake_clusters, new_cluster, cluster_id, find_cluster,
  judge, CreateClusterRequest, FakeClusters,
}
use provider_operator_exampl.Service.{Cluster}
use provider_operator_exampl.Base.{
  ◌<◌, ◌∙◌, sym, refl, [], Bool-cases, ◌≤◌, inr, inl, length, ◌++◌, ltb, Option-cases, arith, some,
  none, false, has_suffix, ◌==◌, ◌≢◌, if◌then◌else◌, ok, ◌∷◌, ◌≡◌, Option, List,
}
use provider_operator_exampl.FakeClusters.Steps.Races.{Reach-trans, find_cluster-mem}
use provider_operator_exampl.FakeClusters.Steps.Invariant.{reachable-Inv}

-- The request that the parameters of an instance make, with AWS for a provider that is not given.
abbrev pub request_of : ProviderInstance → CreateClusterRequest
request_of instance =
    let given = get_cluster_parameter instance provisioning_cloud_provider in
    record {
      name = get_cluster_parameter instance provisioning_name;
      provider = if given == "" then "AWS" else given;
    }

-- A cluster is created only for a name that is given, acceptable and not in use, with the
-- identifier that the name makes; the API server is left alone, and the cluster is sent.
pub create_cluster-ok :
    (H : Host) (instance : ProviderInstance) (w w' : H.World) (f f' : FakeClusters)
    (c : Option Cluster)
    → create_cluster H tt instance (w, f) ≡ ok c (w', f')
    → (get_cluster_parameter instance provisioning_name ≢ "")
      × (has_suffix (request_of instance).name "invalid-cluster-creation-request" ≡ false)
      × (find_cluster (cluster_id (request_of instance)) f.clusters ≡ none)
      × (c ≡ some (new_cluster (request_of instance)))
      × (w' ≡ w)
      × (f' ≡ send (new_cluster (request_of instance)) f)
unfolding create_cluster judge
create_cluster-ok H instance w w' f f' c h =
    (ground arith, ground arith, ground arith, ground arith, ground arith, ground arith)

-- The state in which the goroutine has made room.
abbrev served : FakeClusters → Cluster → List Cluster → FakeClusters
served f c rest = record f {
  add_queue = rest;
  add_held = some c;
  clusters = f.clusters ++ held_list f.add_held;
}

serve-eq :
    (f : FakeClusters) (c : Cluster) (rest : List Cluster)
    → f.add_queue ≡ c ∷ rest
    → serve f ≡ served f c rest
unfolding serve
serve-eq f c rest q = ground arith

served-Reach :
    (f : FakeClusters) (c : Cluster) (rest : List Cluster)
    → f.add_queue ≡ c ∷ rest
    → Reach f (served f c rest)
served-Reach f c rest q = elim (Option-cases f.add_held) [
  | inl h ↦
      let same : f.clusters ++ held_list f.add_held ≡ f.clusters = rw h (append-nil f.clusters) in
      rw same (next here (receive_add c rest q h))
  | inr (d, h) ↦
      let same : f.clusters ++ held_list f.add_held ≡ f.clusters ++ (d ∷ []) = rw h in
      rw same (next (next here (append d h)) (receive_add c rest q refl))
]

full-cons :
    (l : List Cluster)
    → ltb (length l) channel_capacity ≡ false
    → (c : Cluster) × (rest : List Cluster) × (l ≡ c ∷ rest)
full-cons [] h = absurd (ground arith)
full-cons (c ∷ rest) h = (c, rest, refl)

-- A cluster that was judged by a former part of the list is sent by steps of the cloud.
pub send-Reach :
    (f : FakeClusters) (request : CreateClusterRequest) (c : Cluster) (seen more : List Cluster)
    → f.clusters ≡ seen ++ more
    → judge request seen ≡ accepted c
    → length f.add_queue ≤ channel_capacity
    → Reach f (send c f)
unfolding send
send-Reach f request c seen more l j bound =
    elim (Bool-cases (ltb (length f.add_queue) channel_capacity)) [
      | inl room ↦ rw room (next here (create request c seen more l j (ground arith)))
      | inr full ↦
          let (d, rest, q) = full-cons f.add_queue full in
          let shorter : length rest < channel_capacity =
            let b : length (d ∷ rest) ≤ channel_capacity = rw q at bound in omega arith in
          let split : f.clusters ++ held_list f.add_held ≡ seen ++ (more ++ held_list f.add_held) =
            rw (l, append_assoc) refl in
          rw (full, serve-eq f d rest q)
            (next (served-Reach f d rest q)
              (create request c seen (more ++ held_list f.add_held) split j shorter))
    ]

-- A creation that succeeds was judged by the list.
pub create_cluster-judged :
    (H : Host) (instance : ProviderInstance) (w w' : H.World) (f f' : FakeClusters)
    (c : Option Cluster)
    → create_cluster H tt instance (w, f) ≡ ok c (w', f')
    → judge (request_of instance) f.clusters ≡ accepted (new_cluster (request_of instance))
create_cluster-judged H instance w w' f f' c h =
    let (_, allowed, unlisted, _, _, _) = create_cluster-ok H instance w w' f f' c h in
    unfold judge in ground arith

-- A creation takes the cloud steps of its own, from a state that is reached from the start.
create_cluster-steps :
    (H : Host) (instance : ProviderInstance) (w w' : H.World) (f f' : FakeClusters)
    (c : Option Cluster)
    → Reach new_fake_clusters f
    → create_cluster H tt instance (w, f) ≡ ok c (w', f')
    → Reach f f'
create_cluster-steps H instance w w' f f' c r h =
    let (_, _, _, _, _, sent) = create_cluster-ok H instance w w' f f' c h in
    rw sent (
      send-Reach f (request_of instance) (new_cluster (request_of instance)) f.clusters []
        (sym (append-nil f.clusters)) (create_cluster-judged H instance w w' f f' c h)
        (reachable-Inv r).bounded)

-- Creating a cluster, by a service whose cloud is in a state that can be reached, leaves it in
-- such a state.
pub create_cluster-Reach :
    (H : Host) (instance : ProviderInstance) (w w' : H.World) (f f' : FakeClusters)
    (c : Option Cluster)
    → Reach new_fake_clusters f
    → create_cluster H tt instance (w, f) ≡ ok c (w', f')
    → Reach new_fake_clusters f'
create_cluster-Reach H instance w w' f f' c r h =
    Reach-trans r (create_cluster-steps H instance w w' f f' c r h)

-- A cluster that is sent comes behind all that the cloud has accepted.
pub send-all_clusters :
    (c : Cluster) (f : FakeClusters) → all_clusters (send c f) ≡ all_clusters f ++ (c ∷ [])
unfolding send
send-all_clusters c f = elim (Bool-cases (ltb (length f.add_queue) channel_capacity)) [
  | inl room ↦ rw (room, append_assoc, append_assoc) refl
  | inr full ↦
      let (d, rest, q) = full-cons f.add_queue full in
      let whole : f.clusters ++ (held_list f.add_held ++ f.add_queue)
          ≡ f.clusters ++ (held_list f.add_held ++ (d ∷ rest)) =
        rw q refl in
      rw (full, serve-eq f d rest q, whole, append_assoc, append_assoc, append_assoc) refl
]

-- After a creation that succeeded, the goroutine of the cloud that adds comes, by steps of its own
-- alone, to a state in which it has nothing left to do: the list is what was listed before, what
-- waited, and the new cluster, and GetCluster answers with a cluster that has its identifier.
pub created_found :
    (H : Host) (instance : ProviderInstance) (w w' : H.World) (f f' : FakeClusters)
    (c : Option Cluster)
    → create_cluster H tt instance (w, f) ≡ ok c (w', f')
    → (t : FakeClusters) × AddReach f' t
      × IsIdle t
      × (t.clusters ≡ all_clusters f ++ (new_cluster (request_of instance) ∷ []))
      × (found : Cluster) × (get_cluster H tt (cluster_id (request_of instance)) (w', t)
          ≡ ok (some found) (w', t))
      × (found.id ≡ cluster_id (request_of instance))
created_found H instance w w' f f' c h =
    let (_, _, _, _, _, sent) = create_cluster-ok H instance w w' f f' c h in
    let new = new_cluster (request_of instance) in
    let (t, r, idle, listed) = drain_held f' in
    let all : t.clusters ≡ all_clusters f ++ (new ∷ []) =
      listed ∙ rw sent (send-all_clusters new f) in
    let (found, q) = find_cluster-mem new.id (all_clusters f) [] new refl in
    let there : find_cluster new.id t.clusters ≡ some found = rw all q in
    (
      t,
      r,
      idle,
      all,
      found,
      unfold get_cluster in ground arith,
      find_cluster-id new.id t.clusters found there,
    )
