-- ===== src/FakeClusters/Steps.antt =====
-- The clients and the goroutines of the provider cloud, as interleavings of single steps.
pub mod Invariant
pub mod Races
pub mod Draining
pub mod Growth
pub mod CaughtUp
pub mod Bag
use provider_operator_exampl.FakeClusters.{
  delete_cluster, update_cluster, channel_capacity, accepted, judge, CreateClusterRequest,
  FakeClusters,
}
use provider_operator_exampl.Service.{Cluster}
use provider_operator_exampl.Base.{String, some, none, List, [], ◌∷◌, ◌++◌, ◌<◌, length, ◌≡◌}

-- One step. A creation was judged by the list as it was then, the part `seen` of the list, and
-- its send waits while the channel is full; a goroutine receives when it holds nothing.
-- Nothing in the repository sends to the channels for updates and deletions.
pub data Step (s : FakeClusters) : FakeClusters → Type 0 where
  create :
      (request : CreateClusterRequest) (c : Cluster) (seen more : List Cluster)
      → s.clusters ≡ seen ++ more
      → judge request seen ≡ accepted c
      → length s.add_queue < channel_capacity
      → Step s (record s { add_queue = s.add_queue ++ (c ∷ []) })
  receive_add :
      (c : Cluster) (rest : List Cluster)
      → s.add_queue ≡ c ∷ rest
      → s.add_held ≡ none
      → Step s (record s { add_queue = rest; add_held = some c })
  append :
      (c : Cluster)
      → s.add_held ≡ some c
      → Step s (record s { add_held = none; clusters = s.clusters ++ (c ∷ []) })
  receive_update :
      (c : Cluster) (rest : List Cluster)
      → s.update_queue ≡ c ∷ rest
      → s.update_held ≡ none
      → Step s (record s { update_queue = rest; update_held = some c })
  replace :
      (c : Cluster)
      → s.update_held ≡ some c
      → Step s (record s { update_held = none; clusters = update_cluster c s.clusters })
  receive_delete :
      (id : String) (rest : List String)
      → s.delete_queue ≡ id ∷ rest
      → s.delete_held ≡ none
      → Step s (record s { delete_queue = rest; delete_held = some id })
  remove :
      (id : String)
      → s.delete_held ≡ some id
      → Step s (record s { delete_held = none; clusters = delete_cluster id s.clusters })

pub data Reach (s : FakeClusters) : FakeClusters → Type 0 where
  here : Reach s s
  next : {t u : FakeClusters} → Reach s t → Step t u → Reach s u
