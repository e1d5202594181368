-- ===== src/FakeClusters/Steps/Bag.antt =====
-- The clusters of the cloud without their order: what a step means for a client that lists them.
use mathlib.Core.List.{
  filter, Mem, mem-cons, mem-cons_self, mem-cons_of_mem, not-mem-nil, Nodup, Nodup-nil, Nodup-cons,
  Perm, perm_middle, append-nil,
}
use mathlib.Core.List.Perm
use mathlib.Core.HLevel.{⊥_prop}
use mathlib.Core.Logic.Or
use mathlib.Core.Quot
use mathlib.Core.Quot.{Quot, Quot-set}
use provider_operator_exampl.Base.{
  arith, if◌then◌else◌, ◌==◌, inl, inr, List, [], ◌∷◌, map, none, String, String-dec, ◌≡◌, ◌≢◌, ap,
  refl, Option-cases,
}
use provider_operator_exampl.FakeClusters.{
  index_of, delete_cluster, update_cluster, find_cluster, FakeClusters,
}
use provider_operator_exampl.FakeClusters.Delete.{delete_cluster-victim}
use provider_operator_exampl.FakeClusters.Lookup.{NodupIds}
use provider_operator_exampl.FakeClusters.Steps.{
  Step, create, receive_add, append, receive_update, replace, receive_delete, remove,
}
use provider_operator_exampl.FakeClusters.Update.{ids}
use provider_operator_exampl.Service.{Cluster}

abbrev pub Bag : Type 0
Bag = Quot (Perm {A = Cluster})

abbrev pub bag_of : List Cluster → Bag
bag_of cs = Quot.mk cs

-- The operations of a collection that knows no order.
abbrev pub add : Cluster → Bag → Bag
add c = Quot.lift Quot-set (λ cs. bag_of (c ∷ cs)) (λ xs ys p. Quot.sound (Perm.cons c p))

abbrev renewed : Cluster → Cluster → Cluster
renewed c d = if d.id == c.id then c else d

abbrev pub renew : Cluster → Bag → Bag
renew c =
    Quot.lift Quot-set (λ cs. bag_of (map (renewed c) cs))
      (λ xs ys p. Quot.sound (Perm.map (renewed c) p))

abbrev has_other_id : (id : String) (c : Cluster) → Dec (c.id ≢ id)
has_other_id id c = elim (String-dec c.id id) [ yes e ↦ no (λ n. n e) | no n ↦ yes n ]

abbrev pub drop_id : String → Bag → Bag
drop_id id =
    Quot.lift Quot-set (λ cs. bag_of (filter (has_other_id id) cs))
      (λ xs ys p. Quot.sound (Perm.filter (has_other_id id) p))

-- What a step does to the collection.
abbrev pub effect : {s t : FakeClusters} → Step s t → Bag → Bag
effect (append c h) b = add c b
effect (replace c h) b = renew c b
effect (remove id h) b = drop_id id b
effect _ b = b

module _ (id : String) where
  find_cluster-absent : (cs : List Cluster) → find_cluster id cs ≡ none → ¬ Mem id (ids cs)
  unfolding find_cluster
  find_cluster-absent [] e m = not-mem-nil m
  find_cluster-absent (c ∷ cs) e m =
      Or.elim ⊥_prop (mem-cons.0 m) (λ p. ground arith) (find_cluster-absent cs (ground arith))

  absent-find_cluster : (cs : List Cluster) → ¬ Mem id (ids cs) → find_cluster id cs ≡ none
  unfolding find_cluster
  absent-find_cluster [] n = refl
  absent-find_cluster (c ∷ cs) n = elim (String-dec c.id id) [
    | yes same ↦ absurd (n (rw same mem-cons_self))
    | no differ ↦
        let rest = absent-find_cluster cs (λ m. n (mem-cons_of_mem c.id m)) in ground arith
  ]

  -- Where no cluster has the identifier, dropping it keeps the list.
  filter-absent : (cs : List Cluster) → find_cluster id cs ≡ none → filter (has_other_id id) cs ≡ cs
  unfolding find_cluster
  filter-absent [] e = refl
  filter-absent (c ∷ cs) e = elim (String-dec c.id id) [
    | yes same ↦ absurd (ground arith)
    | no differ ↦ ground (arith, filter-absent cs)
  ]

NodupIds-Nodup : (cs : List Cluster) → NodupIds cs → Nodup (ids cs)
NodupIds-Nodup [] u = Nodup-nil
NodupIds-Nodup (c ∷ cs) u = Nodup-cons.1 (find_cluster-absent c.id cs u.0, NodupIds-Nodup cs u.1)

-- What is left behind a cluster that is taken out has another identifier.
taken_out :
    (c : Cluster) (rest cs : List Cluster)
    → Perm (c ∷ rest) cs
    → NodupIds cs
    → find_cluster c.id rest ≡ none
taken_out c rest cs p u =
    let n : Nodup (ids (c ∷ rest)) =
      Perm.nodup (Perm.symm (Perm.map (λ (d : Cluster). d.id) p)) (NodupIds-Nodup cs u) in
    absent-find_cluster c.id rest (Nodup-cons.0 n).0

map-renewed-absent :
    (c : Cluster) (cs : List Cluster) → find_cluster c.id cs ≡ none → map (renewed c) cs ≡ cs
unfolding find_cluster
map-renewed-absent c [] e = refl
map-renewed-absent c (d ∷ cs) e = elim (String-dec d.id c.id) [
  | yes same ↦ absurd (ground arith)
  | no differ ↦ ground (arith, map-renewed-absent c cs)
]

-- A round of the update goroutine, where the identifiers differ.
update_cluster-map :
    (c : Cluster) (cs : List Cluster) → NodupIds cs → update_cluster c cs ≡ map (renewed c) cs
unfolding update_cluster
update_cluster-map c [] u = refl
update_cluster-map c (d ∷ cs) u = elim (String-dec d.id c.id) [
  | yes same ↦ let rest = map-renewed-absent c cs (rw same at u.0) in ground arith
  | no differ ↦ ground (arith, update_cluster-map c cs u.1)
]

index_of-none :
    (id : String) (cs : List Cluster) → index_of id cs ≡ none → find_cluster id cs ≡ none
unfolding index_of find_cluster
index_of-none id [] e = refl
index_of-none id (c ∷ cs) e = elim (String-dec c.id id) [
  | yes same ↦ absurd (ground arith)
  | no differ ↦ elim (Option-cases (index_of id cs)) [
    | inl none_there ↦ let rest = index_of-none id cs none_there in ground arith
    | inr (i, there) ↦ absurd (ground arith)
  ]
]

-- A round of the delete goroutine, where the identifiers differ.
bag_of-delete_cluster :
    (id : String) (cs : List Cluster)
    → NodupIds cs
    → bag_of (delete_cluster id cs) ≡ drop_id id (bag_of cs)
bag_of-delete_cluster id cs u = elim (Option-cases (index_of id cs)) [
  | inl e ↦
      let kept : delete_cluster id cs ≡ cs = unfold delete_cluster in ground arith in
      rw (kept, filter-absent id cs (index_of-none id cs e)) refl
  | inr (i, e) ↦
      let (victim, named, _, perm) = delete_cluster-victim id cs e in
      let rest : find_cluster id (delete_cluster id cs) ≡ none =
        rw named at (taken_out victim (delete_cluster id cs) cs perm u) in
      let dropped : filter (has_other_id id) (victim ∷ delete_cluster id cs)
          ≡ delete_cluster id cs =
        elim (String-dec victim.id id) [
          | yes same ↦ let f = filter-absent id (delete_cluster id cs) rest in ground arith
          | no differ ↦ absurd (differ named)
        ] in
      Quot.sound (rw dropped at (Perm.filter (has_other_id id) perm))
]

-- As long as no two clusters have one identifier, each step acts on the collection as the operation
-- of its goroutine: listing adds, a round of the update goroutine renews the clusters with the
-- identifier, a round of the delete goroutine drops them, and the other steps leave it alone.
pub Step-bag :
    {s t : FakeClusters} (st : Step s t)
    → NodupIds s.clusters
    → bag_of t.clusters ≡ effect st (bag_of s.clusters)
Step-bag (create request c seen more l j room) u = refl
Step-bag (receive_add c rest q n) u = refl
Step-bag {s} (append c h) u = Quot.sound (rw append-nil at (perm_middle {a = c} s.clusters []))
Step-bag (receive_update c rest q n) u = refl
Step-bag {s} (replace c h) u = ap bag_of (update_cluster-map c s.clusters u)
Step-bag (receive_delete id rest q n) u = refl
Step-bag {s} (remove id h) u = bag_of-delete_cluster id s.clusters u
