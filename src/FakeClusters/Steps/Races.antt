-- ===== src/FakeClusters/Steps/Races.antt =====
-- Creations that run concurrently: the duplicate check of CreateCluster, and the clusters that wait
-- in the channel or in the hands of the goroutine.
use mathlib.Core.List.{append-nil, append_assoc}
use provider_operator_exampl.FakeClusters.Steps.{
  next, here, Reach, remove, receive_delete, replace, receive_update, append, receive_add, create,
  Step,
}
use provider_operator_exampl.FakeClusters.{
  held_list, fixed_clusters, new_fake_clusters, cluster_id, new_cluster, accepted, find_cluster,
  CreateClusterRequest, judge, FakeClusters,
}
use provider_operator_exampl.Base.{
  refl, ◌∙◌, String, String-dec, arith, ◌∷◌, some, none, ◌≡◌, ◌++◌, [], List,
}
use provider_operator_exampl.Service.{Cluster}
use provider_operator_exampl.FakeClusters.Steps.Invariant.{reachable-Inv, Inv}
use provider_operator_exampl.FakeClusters.Lookup.{
  find_cluster-append, NodupIds-prefix, append-NodupIds, NodupIds,
}

-- The clusters that are accepted and not yet listed, oldest first.
abbrev pub pending : FakeClusters → List Cluster
pending s = held_list s.add_held ++ s.add_queue

-- The cluster is judged by the list of the moment at which it is sent, and none with its identifier
-- waits then.
abbrev pub IsClear : {s t : FakeClusters} → Step s t → Type 0
IsClear {s} (create request c seen more l j room) =
    (more ≡ []) × (find_cluster c.id (pending s) ≡ none)
IsClear _ = Unit

pub data CarefulReach (s : FakeClusters) : FakeClusters → Type 0 where
  start : CarefulReach s s
  step : {t u : FakeClusters} → CarefulReach s t → (st : Step t u) → IsClear st → CarefulReach s u

pub judge-find_cluster :
    (request : CreateClusterRequest) (clusters : List Cluster) {c : Cluster}
    → judge request clusters ≡ accepted c
    → (c ≡ new_cluster request) × (find_cluster (cluster_id request) clusters ≡ none)
unfolding judge
judge-find_cluster request clusters h = (ground arith, ground arith)

abbrev IsUnique : FakeClusters → Type 0
IsUnique s = NodupIds (s.clusters ++ pending s)

Step-IsUnique :
    {s t : FakeClusters} → Inv s → IsUnique s → (st : Step s t) → IsClear st → IsUnique t
Step-IsUnique {s} i u (create request c seen more l j room) (whole, clear) =
    let (made, unlisted) = judge-find_cluster request seen j in
    let all : s.clusters ≡ seen = l ∙ (rw whole (append-nil seen)) in
    let free : find_cluster c.id s.clusters ≡ none = rw (all, made) unlisted in
    let none_there : find_cluster c.id (s.clusters ++ pending s) ≡ none =
      rw (find_cluster-append, free) clear in
    rw (append_assoc, append_assoc) at (append-NodupIds (s.clusters ++ pending s) c u none_there)
Step-IsUnique {s} i u (receive_add c rest q n) clear = rw (q, n) at u
Step-IsUnique {s} i u (append c h) clear = rw append_assoc (rw h at u)
Step-IsUnique i u (receive_update c rest q n) clear = cc (q, i.no_update)
Step-IsUnique i u (replace c h) clear = cc (h, i.no_update_held)
Step-IsUnique i u (receive_delete id rest q n) clear = cc (q, i.no_delete)
Step-IsUnique i u (remove id h) clear = cc (h, i.no_delete_held)

CarefulReach-Reach : {s t : FakeClusters} → CarefulReach s t → Reach s t
CarefulReach-Reach start = here
CarefulReach-Reach (step r st clear) = next (CarefulReach-Reach r) st

new-IsUnique : IsUnique new_fake_clusters
unfolding new_fake_clusters find_cluster String-dec
new-IsUnique = (refl, (refl, (refl, tt)))

careful-IsUnique : {t : FakeClusters} → CarefulReach new_fake_clusters t → IsUnique t
careful-IsUnique start = new-IsUnique
careful-IsUnique (step r st clear) =
    Step-IsUnique (reachable-Inv (CarefulReach-Reach r)) (careful-IsUnique r) st clear

pub Reach-trans : {s t u : FakeClusters} → Reach s t → Reach t u → Reach s u
Reach-trans r here = r
Reach-trans r (next q st) = next (Reach-trans r q) st

twice-absurd : (c : Cluster) → find_cluster c.id (c ∷ []) ≡ none → ⊥
unfolding find_cluster
twice-absurd c h = absurd (ground arith)

-- As long as each cluster is judged by the list of the moment at which it is sent, while none with
-- its identifier still waits to be listed, no two clusters of the list have one identifier.
pub careful-NodupIds : {s : FakeClusters} → CarefulReach new_fake_clusters s → NodupIds s.clusters
careful-NodupIds {s} r = NodupIds-prefix s.clusters (pending s) (careful-IsUnique r)

-- Without that care the list comes to hold a created cluster twice: for every acceptable request
-- for a cluster that is not there at the start.
pub duplicate_reachable :
    (request : CreateClusterRequest)
    → judge request fixed_clusters ≡ accepted (new_cluster request)
    → (s : FakeClusters) × Reach new_fake_clusters s
      × (s.clusters ≡ fixed_clusters ++ (new_cluster request ∷ new_cluster request ∷ []))
      × (NodupIds s.clusters → ⊥)
unfolding new_fake_clusters
duplicate_reachable request j =
    let c = new_cluster request in
    let sent_once : Reach new_fake_clusters (record new_fake_clusters { add_queue = c ∷ [] }) =
      next here (create request c fixed_clusters [] refl j (omega arith)) in
    let sent_twice : Reach new_fake_clusters (record new_fake_clusters { add_queue = c ∷ c ∷ [] }) =
      next sent_once (create request c fixed_clusters [] refl j (omega arith)) in
    let listed_once = next (next sent_twice (receive_add c (c ∷ []) refl refl)) (append c refl) in
    let listed_twice = next (next listed_once (receive_add c [] refl refl)) (append c refl) in
    (
      record new_fake_clusters { clusters = fixed_clusters ++ (c ∷ c ∷ []) },
      listed_twice,
      refl,
      λ u. twice-absurd c u.1.1.1.0,
    )

pub find_cluster-mem :
    (id : String) (xs ys : List Cluster) (c : Cluster)
    → c.id ≡ id
    → (found : Cluster) × (find_cluster id (xs ++ (c ∷ ys)) ≡ some found)
unfolding find_cluster
find_cluster-mem id [] ys c e = (c, ground arith)
find_cluster-mem id (x ∷ xs) ys c e = elim (String-dec x.id id) [
  | yes same ↦ (x, ground arith)
  | no differ ↦ let (found, f) = find_cluster-mem id xs ys c e in (found, ground arith)
]
