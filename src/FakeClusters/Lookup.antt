-- ===== src/FakeClusters/Lookup.antt =====
-- Searching the clusters by identifier.
use provider_operator_exampl.FakeClusters.{find_cluster}
use provider_operator_exampl.Base.{
  refl, [], none, arith, ◌∷◌, ◌≡◌, some, ◌++◌, List, String, Option,
}
use provider_operator_exampl.Service.{Cluster}

abbrev pub or_else : Option Cluster → Option Cluster → Option Cluster
or_else none b = b
or_else (some a) b = some a

pub find_cluster-append :
    (id : String) (xs ys : List Cluster)
    → find_cluster id (xs ++ ys) ≡ or_else (find_cluster id xs) (find_cluster id ys)
unfolding find_cluster
find_cluster-append id [] ys = refl
find_cluster-append id (x ∷ xs) ys = ground (arith, find_cluster-append id xs ys)

-- No two clusters have one identifier.
abbrev pub NodupIds : List Cluster → Type 0
NodupIds [] = Unit
NodupIds (c ∷ cs) = (find_cluster c.id cs ≡ none) × NodupIds cs

-- A cluster with an identifier that the list lacks may go to its end.
pub append-NodupIds :
    (cs : List Cluster) (c : Cluster)
    → NodupIds cs
    → find_cluster c.id cs ≡ none
    → NodupIds (cs ++ (c ∷ []))
unfolding find_cluster
append-NodupIds [] c u n = (refl, tt)
append-NodupIds (d ∷ cs) c u n =
    (ground (arith, find_cluster-append d.id cs (c ∷ [])), append-NodupIds cs c u.1 (ground arith))

pub NodupIds-prefix : (xs ys : List Cluster) → NodupIds (xs ++ ys) → NodupIds xs
NodupIds-prefix [] ys u = tt
NodupIds-prefix (x ∷ xs) ys u =
    (ground (arith, find_cluster-append x.id xs ys, u.0), NodupIds-prefix xs ys u.1)
