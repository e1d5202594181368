-- ===== src/FakeClusters/Delete.antt =====
-- One round of the delete goroutine, which moves the last cluster into the gap.
use mathlib.Core.List.{Perm, perm_middle, append_assoc, append-nil}
use mathlib.Core.List.Perm
use provider_operator_exampl.Base.{
  ℕ, suc, ◌-◌, String, List, [], ◌∷◌, ◌++◌, length, length-append, set, take, some, ◌≡◌, refl, sym,
  ap, ◌∙◌, String-dec, Option-cases, inl, inr, arith, get_elem?, All, ◌≢◌,
}
use provider_operator_exampl.Service.{Cluster}
use provider_operator_exampl.FakeClusters.{index_of, delete_at, delete_cluster, last_or}

-- The list up to the first cluster with the identifier, that cluster, and the rest.
record Split (id : String) (i : ℕ) (l : List Cluster) : Type 0 where
  before : List Cluster
  victim : Cluster
  after : List Cluster
  whole : l ≡ before ++ (victim ∷ after)
  place : length before ≡ i
  named : victim.id ≡ id

index_of-Split : (id : String) (l : List Cluster) {i : ℕ} → index_of id l ≡ some i → Split id i l
unfolding index_of
index_of-Split id [] h = absurd (ground arith)
index_of-Split id (c ∷ cs) {i} h = elim (String-dec c.id id) [
  | yes same ↦ record {
    before = [];
    victim = c;
    after = cs;
    whole = refl;
    place = ground arith;
    named = same;
  }
  | no differ ↦ elim (Option-cases (index_of id cs)) [
    | inl e ↦ absurd (ground arith)
    | inr (j, e) ↦
        let later = index_of-Split id cs e in
        let next : suc j ≡ i = ground arith in
        record {
          before = c ∷ later.before;
          victim = later.victim;
          after = later.after;
          whole = ap (λ (l : List Cluster). c ∷ l) later.whole;
          place = ap suc later.place ∙ next;
          named = later.named;
        }
  ]
]

set-append :
    (before after : List Cluster) (c v : Cluster)
    → set (before ++ (c ∷ after)) (length before) v ≡ before ++ (v ∷ after)
set-append [] after c v = refl
set-append (b ∷ before) after c v = ap (λ (l : List Cluster). b ∷ l) (set-append before after c v)

get_elem?-append :
    (before after : List Cluster) (c : Cluster)
    → get_elem? (before ++ (c ∷ after)) (length before) ≡ some c
get_elem?-append [] after c = refl
get_elem?-append (b ∷ before) after c = get_elem?-append before after c

take-append : (l : List Cluster) (c : Cluster) → take (length l) (l ++ (c ∷ [])) ≡ l
take-append [] c = refl
take-append (b ∷ l) c = ap (λ (t : List Cluster). b ∷ t) (take-append l c)

last_or-append : (l : List Cluster) (d c : Cluster) → last_or d (l ++ (c ∷ [])) ≡ c
last_or-append [] d c = refl
last_or-append (b ∷ l) d c = last_or-append l b c

delete_at-eq :
    (i : ℕ) (d : Cluster) (l : List Cluster)
    → delete_at i l ≡ take (length l - 1) (set l i (last_or d l))
unfolding delete_at
delete_at-eq i d [] = refl
delete_at-eq i d (c ∷ cs) = refl

-- Deleting at the place of the last cluster, and before it.
delete_at-last :
    (before : List Cluster) (v : Cluster) → delete_at (length before) (before ++ (v ∷ [])) ≡ before
delete_at-last before v =
    let size : length (before ++ (v ∷ [])) - 1 ≡ length before =
      omega (arith, length-append {0} before (v ∷ [])) in
    delete_at-eq (length before) v (before ++ (v ∷ []))
    ∙ rw (size, set-append, last_or-append) (take-append before v)

delete_at-inner :
    (before mid : List Cluster) (v z : Cluster)
    → delete_at (length before) (before ++ (v ∷ (mid ++ (z ∷ [])))) ≡ before ++ (z ∷ mid)
delete_at-inner before mid v z =
    let l = before ++ (v ∷ (mid ++ (z ∷ []))) in
    let regroup : (x : Cluster)
        → before ++ (x ∷ (mid ++ (z ∷ []))) ≡ (before ++ (x ∷ mid)) ++ (z ∷ []) =
      λ x. sym (append_assoc before (x ∷ mid) (z ∷ [])) in
    let size : length l - 1 ≡ length (before ++ (z ∷ mid)) = omega (
      arith,
      length-append {0} before (v ∷ (mid ++ (z ∷ []))),
      length-append {0} mid (z ∷ []),
      length-append {0} before (z ∷ mid),
    ) in
    let last : last_or v l ≡ z =
      ap (last_or v) (regroup v) ∙ last_or-append (before ++ (v ∷ mid)) v z in
    delete_at-eq (length before) v l
    ∙ rw (last, size, set-append, regroup z) (take-append (before ++ (z ∷ mid)) z)

snoc :
    (a : Cluster) (r : List Cluster)
    → (mid : List Cluster) × (z : Cluster) × (a ∷ r ≡ mid ++ (z ∷ []))
snoc a [] = ([], a, refl)
snoc a (b ∷ r) = let (mid, z, e) = snoc b r in (a ∷ mid, z, ap (λ (l : List Cluster). a ∷ l) e)

delete_at-perm :
    (before after : List Cluster) (v : Cluster)
    → Perm (v ∷ delete_at (length before) (before ++ (v ∷ after))) (before ++ (v ∷ after))
delete_at-perm before [] v =
    rw delete_at-last (rw append-nil at (Perm.symm (perm_middle {a = v} before [])))
delete_at-perm before (a ∷ r) v =
    let (mid, z, e) = snoc a r in
    let end : Perm (before ++ (mid ++ (z ∷ []))) (z ∷ (before ++ mid)) =
      rw (append_assoc, append-nil) at (perm_middle {a = z} (before ++ mid) []) in
    rw (e, delete_at-inner)
      (Perm.trans (Perm.cons v (perm_middle before mid))
        (Perm.symm (Perm.trans (perm_middle before (mid ++ (z ∷ []))) (Perm.cons v end))))

delete_at-whole :
    (clusters before after : List Cluster) (v : Cluster) (i : ℕ)
    → clusters ≡ before ++ (v ∷ after)
    → length before ≡ i
    → (get_elem? clusters i ≡ some v) × Perm (v ∷ delete_at i clusters) clusters
delete_at-whole clusters before after v i whole place =
    rw (whole, ← place) (get_elem?-append before after v, delete_at-perm before after v)

-- Deleting an identifier takes out the cluster at the index that the search finds, which has it, and
-- otherwise only reorders the list.
pub delete_cluster-victim :
    (id : String) (clusters : List Cluster) {i : ℕ}
    → index_of id clusters ≡ some i
    → (victim : Cluster) × (victim.id ≡ id)
      × (get_elem? clusters i ≡ some victim)
      × Perm (victim ∷ delete_cluster id clusters) clusters
unfolding delete_cluster
delete_cluster-victim id clusters {i} h =
    let s = index_of-Split id clusters h in
    let (there, perm) = delete_at-whole clusters s.before s.after s.victim i s.whole s.place in
    let done : delete_at i clusters ≡ delete_cluster id clusters = ground arith in
    (s.victim, s.named, there, rw done at perm)

-- The search finds the first cluster with the identifier.
index_of-first :
    (id : String) (before after : List Cluster) (victim : Cluster)
    → victim.id ≡ id
    → All (λ (c : Cluster). c.id ≢ id) before
    → index_of id (before ++ (victim ∷ after)) ≡ some (length before)
unfolding index_of
index_of-first id [] after victim named earlier = ground arith
index_of-first id (c ∷ before) after victim named (differ, earlier) =
    let rest = index_of-first id before after victim named earlier in ground arith

delete_at-rest :
    (before after : List Cluster) (v : Cluster)
    → Perm (delete_at (length before) (before ++ (v ∷ after))) (before ++ after)
delete_at-rest before [] v = rw (delete_at-last, append-nil) (Perm.refl before)
delete_at-rest before (a ∷ r) v =
    let (mid, z, e) = snoc a r in
    let end : Perm (before ++ (mid ++ (z ∷ []))) (z ∷ (before ++ mid)) =
      rw (append_assoc, append-nil) at (perm_middle {a = z} (before ++ mid) []) in
    rw (e, delete_at-inner) (Perm.trans (perm_middle before mid) (Perm.symm end))

-- A round of the delete goroutine removes the first cluster that has the identifier and keeps all
-- others, up to their order.
pub delete_cluster-perm :
    (id : String) (before after : List Cluster) (victim : Cluster)
    → victim.id ≡ id
    → All (λ (c : Cluster). c.id ≢ id) before
    → Perm (delete_cluster id (before ++ (victim ∷ after))) (before ++ after)
unfolding delete_cluster
delete_cluster-perm id before after victim named earlier =
    let found = index_of-first id before after victim named earlier in
    let done : delete_at (length before) (before ++ (victim ∷ after))
        ≡ delete_cluster id (before ++ (victim ∷ after)) =
      ground arith in
    rw done at (delete_at-rest before after victim)
