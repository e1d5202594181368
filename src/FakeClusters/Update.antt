-- ===== src/FakeClusters/Update.antt =====
-- One round of the update goroutine.
use mathlib.Core.Option
use provider_operator_exampl.Base.{List, [], ◌∷◌, String, map, refl, arith, ◌≡◌, ◌≢◌, String-dec}
use provider_operator_exampl.Service.{Cluster}
use provider_operator_exampl.FakeClusters.{find_cluster, update_cluster}

abbrev pub ids : List Cluster → List String
ids = map (λ (c : Cluster). c.id)

ids-update_cluster :
    (cluster : Cluster) (cs : List Cluster) → ids (update_cluster cluster cs) ≡ ids cs
unfolding update_cluster
ids-update_cluster cluster [] = refl
ids-update_cluster cluster (c ∷ cs) = elim (String-dec c.id cluster.id) [
  | yes same ↦ ground (arith, same)
  | no differ ↦ ground (arith, ids-update_cluster cluster cs)
]

find_cluster-update_cluster :
    (cluster : Cluster) (cs : List Cluster)
    → find_cluster cluster.id (update_cluster cluster cs)
      ≡ Option.map (λ (_ : Cluster). cluster) (find_cluster cluster.id cs)
unfolding find_cluster update_cluster
find_cluster-update_cluster cluster [] = refl
find_cluster-update_cluster cluster (c ∷ cs) = elim (String-dec c.id cluster.id) [
  | yes same ↦ ground arith
  | no differ ↦ let rest = find_cluster-update_cluster cluster cs in ground arith
]

find_cluster-update_cluster_other :
    (cluster : Cluster) (id : String) (cs : List Cluster)
    → id ≢ cluster.id
    → find_cluster id (update_cluster cluster cs) ≡ find_cluster id cs
unfolding find_cluster update_cluster
find_cluster-update_cluster_other cluster id [] n = refl
find_cluster-update_cluster_other cluster id (c ∷ cs) n =
    ground (arith, find_cluster-update_cluster_other cluster id cs n)

-- A round of the update goroutine keeps the identifiers of the list in their order; under the
-- identifier of the new cluster the new one is found afterwards where one was found before, and none
-- where none was; and under every other identifier the same is found as before.
pub update_cluster_lem :
    (cluster : Cluster) (other : String) (cs : List Cluster)
    → other ≢ cluster.id
    → (ids (update_cluster cluster cs) ≡ ids cs)
      × (find_cluster cluster.id (update_cluster cluster cs)
          ≡ Option.map (λ (_ : Cluster). cluster) (find_cluster cluster.id cs))
      × (find_cluster other (update_cluster cluster cs) ≡ find_cluster other cs)
update_cluster_lem cluster other cs n = (
  ids-update_cluster cluster cs,
  find_cluster-update_cluster cluster cs,
  find_cluster-update_cluster_other cluster other cs n,
)
