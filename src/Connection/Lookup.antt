-- ===== src/Connection/Lookup.antt =====
-- getClusterInstance: which database service a connection is bound to.
use provider_operator_exampl.Base.{
  List, [], ◌∷◌, ◌++◌, String, none, some, ◌⊎◌, inl, inr, ◌≡◌, ◌≢◌, All, ap, Option-cases,
  String-dec, ◌↔◌, arith,
}
use provider_operator_exampl.Api.{Condition, condition_true, DatabaseService, ProviderInventory}
use provider_operator_exampl.Api.Reasons.{inventory_condition_type_ready}
use provider_operator_exampl.Host.{Host}
use provider_operator_exampl.Connection.{get_cluster_instance}
use provider_operator_exampl.Connection.Build.{find_synced, find_service}

-- The first service of the list with this identifier.
pub record IsFirst (id : String) (services : List DatabaseService) (s : DatabaseService)
    : Type 0 where
  pub before : List DatabaseService
  pub after : List DatabaseService
  pub split : services ≡ before ++ (s ∷ after)
  pub matches : s.service_id ≡ id
  pub earlier : All (λ (t : DatabaseService). t.service_id ≢ id) before

-- Some condition says that the inventory is synced.
abbrev pub IsSynced : List Condition → Type 0
IsSynced [] = ⊥
IsSynced (c ∷ cs) =
    (c.type ≡ inventory_condition_type_ready) × (c.status ≡ condition_true) ⊎ IsSynced cs

find_synced-IsSynced : (cs : List Condition) {c : Condition} → find_synced cs ≡ some c → IsSynced cs
unfolding find_synced
find_synced-IsSynced [] h = cc
find_synced-IsSynced (d ∷ cs) {c} h =
    ground (arith, λ (p : find_synced cs ≡ some c). find_synced-IsSynced cs p)

IsSynced-find_synced : (cs : List Condition) → IsSynced cs → find_synced cs ≢ none
unfolding find_synced
IsSynced-find_synced [] h = absurd h
IsSynced-find_synced (c ∷ cs) (inl h) = ground arith
IsSynced-find_synced (c ∷ cs) (inr h) = ground (arith, IsSynced-find_synced cs h)

pub find_service-IsFirst :
    (id : String) (services : List DatabaseService) {s : DatabaseService}
    → find_service id services ≡ some s
    → IsFirst id services s
unfolding find_service
find_service-IsFirst id [] h = absurd (ground arith)
find_service-IsFirst id (t ∷ services) {s} h = elim (String-dec t.service_id id) [
  | yes same ↦ record {
    before = [];
    after = services;
    split = ground arith;
    matches = ground arith;
    earlier = tt;
  }
  | no differ ↦
      let later = find_service-IsFirst id services {s = s} (ground arith) in
      record {
        before = t ∷ later.before;
        after = later.after;
        split = ap (λ (l : List DatabaseService). t ∷ l) later.split;
        matches = later.matches;
        earlier = (differ, later.earlier);
      }
]

find_service-append :
    (id : String) (before after : List DatabaseService) (s : DatabaseService)
    → s.service_id ≡ id
    → All (λ (t : DatabaseService). t.service_id ≢ id) before
    → find_service id (before ++ (s ∷ after)) ≡ some s
unfolding find_service
find_service-append id [] after s m e = ground arith
find_service-append id (t ∷ before) after s m (n, e) =
    ground (arith, n, find_service-append id before after s m e)

-- A database service is found exactly when the inventory is synced, and it is the first that has
-- the identifier.
pub get_cluster_instance_iff :
    (H : Host) (inventory : ProviderInventory) (id : String) (s : DatabaseService)
    → (get_cluster_instance H inventory id ≡ inr s)
      ↔ (IsSynced inventory.status.conditions × IsFirst id inventory.status.database_services s)
unfolding get_cluster_instance
get_cluster_instance_iff H inventory id s = (
  λ h. elim (Option-cases (find_synced inventory.status.conditions)) [
    | inl e ↦ absurd (ground arith)
    | inr (c, e) ↦ (
      find_synced-IsSynced inventory.status.conditions e,
      find_service-IsFirst id inventory.status.database_services (ground arith),
    )
  ],
  λ (synced, first).
      let found : find_service id inventory.status.database_services ≡ some s =
        rw first.split
          (find_service-append id first.before first.after s first.matches first.earlier) in
      let there = IsSynced-find_synced inventory.status.conditions synced in
      elim (Option-cases (find_synced inventory.status.conditions)) [
        | inl e ↦ absurd (there e)
        | inr (c, e) ↦ ground (arith, e, found)
      ],
)
