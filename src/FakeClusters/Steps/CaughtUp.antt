-- ===== src/FakeClusters/Steps/CaughtUp.antt =====
-- How long a cluster that was accepted waits until it is listed: until the list is as long as all
-- that was accepted, whatever the clients and the other goroutines do in between.
use mathlib.Core.List.{append_assoc, append-nil}
use provider_operator_exampl.FakeClusters.{find_cluster, FakeClusters}
use provider_operator_exampl.FakeClusters.Lookup.{find_cluster-append}
use provider_operator_exampl.FakeClusters.Steps.{Reach, here, next}
use provider_operator_exampl.FakeClusters.Steps.Invariant.{Inv, Step-Inv}
use provider_operator_exampl.FakeClusters.Steps.Growth.{
  all_clusters, Step-all_clusters, Step-clusters,
}
use provider_operator_exampl.FakeClusters.Steps.Races.{pending}
use provider_operator_exampl.Service.{Cluster}
use provider_operator_exampl.Base.{
  ◌≤◌, String, some, List, [], ◌∷◌, ◌++◌, ◌≡◌, ◌∙◌, refl, sym, arith, length,
}

Reach-all_clusters :
    {s t : FakeClusters}
    → Inv s
    → Reach s t
    → Inv t × (more : List Cluster) × (all_clusters t ≡ all_clusters s ++ more)
Reach-all_clusters {s} i here = (i, [], sym (append-nil (all_clusters s)))
Reach-all_clusters {s} i (next r st) =
    let (j, more, e) = Reach-all_clusters i r in
    let (last, e') = Step-all_clusters j st in
    (Step-Inv st j, more ++ last, e' ∙ rw (e, append_assoc) refl)

pub Reach-clusters :
    {s t : FakeClusters}
    → Inv s
    → Reach s t
    → Inv t × (more : List Cluster) × (t.clusters ≡ s.clusters ++ more)
Reach-clusters {s} i here = (i, [], sym (append-nil s.clusters))
Reach-clusters {s} i (next r st) =
    let (j, more, e) = Reach-clusters i r in
    let (last, e') = Step-clusters j st in
    (Step-Inv st j, more ++ last, e' ∙ rw (e, append_assoc) refl)

-- Of two ways to cut one list, the longer front begins with the shorter.
front-append :
    (xs ys us vs : List Cluster)
    → xs ++ ys ≡ us ++ vs
    → length us ≤ length xs
    → (rest : List Cluster) × (xs ≡ us ++ rest)
front-append xs ys [] vs e h = (xs, refl)
front-append [] ys (a ∷ us) vs e h = absurd (omega arith)
front-append (x ∷ xs) ys (a ∷ us) vs e h =
    let (rest, p) = front-append xs ys us vs (cc) (omega arith) in (rest, ground arith)

-- Once as many clusters are listed as were accepted before, whatever else has happened, each that
-- was known then is listed, and found.
pub caught_up-listed :
    {s t : FakeClusters} (id : String) (c : Cluster)
    → Inv s
    → Reach s t
    → length (all_clusters s) ≤ length t.clusters
    → find_cluster id (all_clusters s) ≡ some c
    → find_cluster id t.clusters ≡ some c
caught_up-listed {s} {t} id c i r enough known =
    let (_, more, grown) = Reach-all_clusters i r in
    let (rest, e) = front-append t.clusters (pending t) (all_clusters s) more grown enough in
    rw (e, find_cluster-append, known) refl
