-- ===== src/FakeClusters/Steps/Invariant.antt =====
-- What holds in every state that the provider cloud reaches.
use mathlib.Core.List.{append_assoc}
use provider_operator_exampl.FakeClusters.Steps.{
  remove, receive_delete, replace, receive_update, append, receive_add, create, Step, Reach, here,
  next,
}
use provider_operator_exampl.FakeClusters.{
  fixed_clusters, channel_capacity, accepted, new_cluster, CreateClusterRequest, FakeClusters,
  judge, new_fake_clusters,
}
use provider_operator_exampl.Service.{Cluster}
use provider_operator_exampl.Base.{
  refl, All-append, length-append, ◌++◌, false, ◌<◌, All, has_suffix, none, some, [], ◌≤◌, ◌∷◌,
  List, arith, ◌≡◌, length,
}

-- A cluster that CreateCluster makes: its identifier comes of its name, which is acceptable.
pub record IsCreated (c : Cluster) : Type 0 where
  pub request : CreateClusterRequest
  pub made : c ≡ new_cluster request
  pub allowed : has_suffix request.name "invalid-cluster-creation-request" ≡ false

pub record Inv (s : FakeClusters) : Type 0 where
  pub bounded : length s.add_queue ≤ channel_capacity
  pub no_update : s.update_queue ≡ []
  pub no_update_held : s.update_held ≡ none
  pub no_delete : s.delete_queue ≡ []
  pub no_delete_held : s.delete_held ≡ none
  pub added : List Cluster
  pub listed : s.clusters ≡ fixed_clusters ++ added
  pub added_created : All IsCreated added
  pub held_created : (c : Cluster) → s.add_held ≡ some c → IsCreated c
  pub queued_created : All IsCreated s.add_queue

judge-IsCreated :
    (request : CreateClusterRequest) (clusters : List Cluster) {c : Cluster}
    → judge request clusters ≡ accepted c
    → IsCreated c
unfolding judge
judge-IsCreated request clusters h = record {
  request = request;
  made = ground arith;
  allowed = ground arith;
}

create-Inv :
    (s : FakeClusters) (request : CreateClusterRequest) (c : Cluster) (seen : List Cluster)
    → judge request seen ≡ accepted c
    → length s.add_queue < channel_capacity
    → Inv s
    → Inv (record s { add_queue = s.add_queue ++ (c ∷ []) })
create-Inv s request c seen j room i = record {
  bounded = omega (arith, length-append {0} s.add_queue (c ∷ []));
  no_update = i.no_update;
  no_update_held = i.no_update_held;
  no_delete = i.no_delete;
  no_delete_held = i.no_delete_held;
  added = i.added;
  listed = i.listed;
  added_created = i.added_created;
  held_created = i.held_created;
  queued_created =
      All-append IsCreated s.add_queue (c ∷ []) i.queued_created
        (judge-IsCreated request seen j, tt);
}

receive_add-Inv :
    (s : FakeClusters) (c : Cluster) (rest : List Cluster)
    → s.add_queue ≡ c ∷ rest
    → Inv s
    → Inv (record s { add_queue = rest; add_held = some c })
receive_add-Inv s c rest q i =
    let all : All IsCreated (c ∷ rest) = rw q at i.queued_created in
    let size : length (c ∷ rest) ≤ channel_capacity = rw q at i.bounded in
    record {
      bounded = omega arith;
      no_update = i.no_update;
      no_update_held = i.no_update_held;
      no_delete = i.no_delete;
      no_delete_held = i.no_delete_held;
      added = i.added;
      listed = i.listed;
      added_created = i.added_created;
      held_created = λ d h. let same : c ≡ d = cc in rw same at all.0;
      queued_created = all.1;
    }

append-Inv :
    (s : FakeClusters) (c : Cluster)
    → s.add_held ≡ some c
    → Inv s
    → Inv (record s { add_held = none; clusters = s.clusters ++ (c ∷ []) })
append-Inv s c h i = record {
  bounded = i.bounded;
  no_update = i.no_update;
  no_update_held = i.no_update_held;
  no_delete = i.no_delete;
  no_delete_held = i.no_delete_held;
  added = i.added ++ (c ∷ []);
  listed = rw i.listed (append_assoc fixed_clusters i.added (c ∷ []));
  added_created = All-append IsCreated i.added (c ∷ []) i.added_created (i.held_created c h, tt);
  held_created = λ d k. cc;
  queued_created = i.queued_created;
}

pub Step-Inv : {s t : FakeClusters} → Step s t → Inv s → Inv t
Step-Inv {s} (create request c seen more l j room) i = create-Inv s request c seen j room i
Step-Inv {s} (receive_add c rest q n) i = receive_add-Inv s c rest q i
Step-Inv {s} (append c h) i = append-Inv s c h i
Step-Inv (receive_update c rest q n) i = cc (q, i.no_update)
Step-Inv (replace c h) i = cc (h, i.no_update_held)
Step-Inv (receive_delete id rest q n) i = cc (q, i.no_delete)
Step-Inv (remove id h) i = cc (h, i.no_delete_held)

new_fake_clusters-Inv : Inv new_fake_clusters
unfolding new_fake_clusters
new_fake_clusters-Inv = record {
  bounded = omega arith;
  no_update = refl;
  no_update_held = refl;
  no_delete = refl;
  no_delete_held = refl;
  added = [];
  listed = refl;
  added_created = tt;
  held_created = λ c h. cc;
  queued_created = tt;
}

Reach-Inv : {s t : FakeClusters} → Inv s → Reach s t → Inv t
Reach-Inv i here = i
Reach-Inv i (next r st) = Step-Inv st (Reach-Inv i r)

-- In every state that is reached from the start, no channel holds more than its capacity, nothing
-- is updated or deleted, the list holds the three fixed clusters followed by created ones, and
-- what waits to be added was created too.
pub reachable-Inv : {s : FakeClusters} → Reach new_fake_clusters s → Inv s
reachable-Inv r = Reach-Inv new_fake_clusters-Inv r
