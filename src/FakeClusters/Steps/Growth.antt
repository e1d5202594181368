-- ===== src/FakeClusters/Steps/Growth.antt =====
-- The clusters that the provider cloud has accepted, listed or not, only grow.
use mathlib.Core.List.{append-nil, append_assoc}
use provider_operator_exampl.FakeClusters.{FakeClusters, find_cluster}
use provider_operator_exampl.FakeClusters.Steps.{
  Step, create, receive_add, append, receive_update, replace, receive_delete, remove,
}
use provider_operator_exampl.FakeClusters.Steps.Invariant.{Inv}
use provider_operator_exampl.FakeClusters.Steps.Races.{pending}
use provider_operator_exampl.FakeClusters.Steps.Draining.{AddReach, IsIdle, drain_held}
use provider_operator_exampl.FakeClusters.Lookup.{find_cluster-append}
use provider_operator_exampl.Base.{
  ◌∙◌, sym, ap, String-dec, arith, [], refl, some, ◌∷◌, ◌++◌, ◌≡◌, String, List,
}
use provider_operator_exampl.Service.{Cluster}

-- The clusters that are listed, and behind them those that are accepted and will be.
abbrev pub all_clusters : FakeClusters → List Cluster
all_clusters f = f.clusters ++ pending f

-- The cloud has, or will list, a cluster with the identifier.
abbrev pub IsKnown : FakeClusters → String → Type 0
IsKnown f id = (c : Cluster) × (find_cluster id (all_clusters f) ≡ some c)

pub Step-all_clusters :
    {s t : FakeClusters}
    → Inv s
    → Step s t
    → (more : List Cluster) × (all_clusters t ≡ all_clusters s ++ more)
Step-all_clusters {s} i (create request c seen more l j room) =
    (c ∷ [], rw (append_assoc, append_assoc))
Step-all_clusters {s} i (receive_add c rest q n) = ([], rw (q, n, append-nil) refl)
Step-all_clusters {s} i (append c h) = ([], rw (h, append_assoc, append-nil) refl)
Step-all_clusters i (receive_update c rest q n) = absurd (cc (q, i.no_update))
Step-all_clusters i (replace c h) = absurd (cc (h, i.no_update_held))
Step-all_clusters i (receive_delete id rest q n) = absurd (cc (q, i.no_delete))
Step-all_clusters i (remove id h) = absurd (cc (h, i.no_delete_held))

-- The list itself only grows too.
pub Step-clusters :
    {s t : FakeClusters}
    → Inv s
    → Step s t
    → (more : List Cluster) × (t.clusters ≡ s.clusters ++ more)
Step-clusters {s} i (create request c seen more l j room) = ([], sym (append-nil s.clusters))
Step-clusters {s} i (receive_add c rest q n) = ([], sym (append-nil s.clusters))
Step-clusters {s} i (append c h) = (c ∷ [], refl)
Step-clusters i (receive_update c rest q n) = absurd (cc (q, i.no_update))
Step-clusters i (replace c h) = absurd (cc (h, i.no_update_held))
Step-clusters i (receive_delete id rest q n) = absurd (cc (q, i.no_delete))
Step-clusters i (remove id h) = absurd (cc (h, i.no_delete_held))

pub more-IsKnown :
    (id : String) (xs ys more : List Cluster)
    → ys ≡ xs ++ more
    → (c : Cluster) × (find_cluster id xs ≡ some c)
    → (c : Cluster) × (find_cluster id ys ≡ some c)
more-IsKnown id xs ys more e (c, found) = (c, rw (e, find_cluster-append, found) refl)

pub Step-IsKnown :
    {s t : FakeClusters} (id : String) → Inv s → Step s t → IsKnown s id → IsKnown t id
Step-IsKnown {s} {t} id i st known =
    let (more, e) = Step-all_clusters i st in
    more-IsKnown id (all_clusters s) (all_clusters t) more e known

pub find_cluster-id :
    (id : String) (cs : List Cluster) (c : Cluster) → find_cluster id cs ≡ some c → c.id ≡ id
unfolding find_cluster
find_cluster-id id [] c e = absurd (ground arith)
find_cluster-id id (d ∷ cs) c e = elim (String-dec d.id id) [
  | yes same ↦ let eq : d ≡ c = ground arith in ap (λ (x : Cluster). x.id) (sym eq) ∙ same
  | no differ ↦ find_cluster-id id cs c (ground arith)
]

-- The goroutine that adds, left alone, lists every known cluster.
pub known_listed :
    (f : FakeClusters) (id : String)
    → IsKnown f id
    → (t : FakeClusters) × AddReach f t
      × IsIdle t
      × (c : Cluster) × (find_cluster id t.clusters ≡ some c)
known_listed f id (c, e) = let (t, r, idle, all) = drain_held f in (t, r, idle, c, rw all e)
