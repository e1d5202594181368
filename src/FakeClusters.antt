-- ===== src/FakeClusters.antt =====
-- The provider cloud of controllers/dbaas/testutil/fakeclient.go: the list of clusters, the three
-- buffered channels and the goroutine that serves each. A goroutine first receives from its channel
-- (what it holds then is in no channel and in no list) and then changes the list under the mutex.
pub mod Steps
pub mod Lookup
pub mod Delete
pub mod Update
use provider_operator_exampl.Base.{
  ℕ, zero, suc, ◌-◌, String, ◌<>◌, ◌==◌, if◌then◌else◌, has_suffix, List, [], ◌∷◌, ◌++◌, Option,
  none, some, length, get_elem?, set, take,
}
use provider_operator_exampl.Service.{Region, Cluster}

pub record CreateClusterRequest : Type 0 where
  pub name : String
  pub provider : String

-- The date does not parse, its error is dropped, and the zero time is left.
abbrev pub a_date : String
a_date = "0001-01-01 00:00:00 +0000 UTC"

abbrev pub fake_region : String → String → Region
fake_region name dns = record { name = name; sql_dns = dns; ui_dns = ""; node_count = 0 }

abbrev pub fake_cluster : String → String → String → String → Region → Cluster
fake_cluster id name provider state region = record {
  id = id;
  name = name;
  version = "";
  plan = "";
  cloud_provider = provider;
  account_id = none;
  state = state;
  creator_id = "";
  operation_status = "";
  regions = region ∷ [];
  created_at = some a_date;
  updated_at = some a_date;
  deleted_at = none;
}

abbrev pub cluster1 : Cluster
cluster1 =
    fake_cluster "a-cluster-instance-1-id" "a-cluster-test-1" "GCP" "CREATED"
      (fake_region "region-1" "free-tier4.cloud")

abbrev pub cluster2 : Cluster
cluster2 =
    fake_cluster "a-cluster-instance-2-id" "a-cluster-test-2" "AWS" "CREATED"
      (fake_region "region-2" "free-tier5.cloud")

abbrev pub cluster3 : Cluster
cluster3 =
    fake_cluster "a-cluster-instance-id-a-provider-test-instance-name" "provider-test-instance-name"
      "AWS" "CREATED" (fake_region "region-3" "free-tier6.cloud")

pub record FakeClusters : Type 0 where
  pub add_queue : List Cluster
  pub add_held : Option Cluster
  pub update_queue : List Cluster
  pub update_held : Option Cluster
  pub delete_queue : List String
  pub delete_held : Option String
  pub clusters : List Cluster

abbrev pub held_list : Option Cluster → List Cluster
held_list none = []
held_list (some c) = c ∷ []

abbrev pub channel_capacity : ℕ
channel_capacity = 5

abbrev pub fixed_clusters : List Cluster
fixed_clusters = cluster1 ∷ cluster2 ∷ cluster3 ∷ []

unfoldable pub new_fake_clusters : FakeClusters
new_fake_clusters = record {
  add_queue = [];
  add_held = none;
  update_queue = [];
  update_held = none;
  delete_queue = [];
  delete_held = none;
  clusters = fixed_clusters;
}

-- The loop of GetCluster; CreateCluster makes the same search.
unfoldable pub find_cluster : String → List Cluster → Option Cluster
find_cluster id [] = none
find_cluster id (c ∷ cs) = if c.id == id then some c else find_cluster id cs

abbrev pub cluster_id : CreateClusterRequest → String
cluster_id request = "a-cluster-instance-id-" <> request.name

-- The cluster that CreateCluster makes of a request.
abbrev pub new_cluster : CreateClusterRequest → Cluster
new_cluster request =
    fake_cluster (cluster_id request) request.name request.provider ""
      (fake_region "region-2" "free-tier5.cloud")

-- What CreateCluster decides before it sends: an error, or the cluster.
pub data Verdict : Type 0 where
  creation_failed already_exists : Verdict
  accepted : Cluster → Verdict

unfoldable pub judge : CreateClusterRequest → List Cluster → Verdict
judge request clusters =
    if has_suffix request.name "invalid-cluster-creation-request"
    then creation_failed
    else elim (find_cluster (cluster_id request) clusters) [
      | some _ ↦ already_exists
      | none ↦ accepted (new_cluster request)
    ]

-- The index of the first cluster with the identifier: the loop of the delete goroutine.
unfoldable pub index_of : String → List Cluster → Option ℕ
index_of id [] = none
index_of id (c ∷ cs) =
    if c.id == id then some 0 else elim (index_of id cs) [ none ↦ none | some i ↦ some (suc i) ]

abbrev pub last_or : Cluster → List Cluster → Cluster
last_or d [] = d
last_or d (c ∷ cs) = last_or c cs

-- `cs[i] = cs[len(cs)-1]; cs = cs[:len(cs)-1]` at the cluster `c` with the identifier.
unfoldable pub delete_at : ℕ → List Cluster → List Cluster
delete_at i [] = []
delete_at i (c ∷ cs) = take (length (c ∷ cs) - 1) (set (c ∷ cs) i (last_or c cs))

-- One round of the delete goroutine.
unfoldable pub delete_cluster : String → List Cluster → List Cluster
unfolding index_of delete_at
delete_cluster id clusters = elim (index_of id clusters) [
  | none ↦ clusters
  | some i ↦ delete_at i clusters
]

-- One round of the update goroutine.
unfoldable pub update_cluster : Cluster → List Cluster → List Cluster
update_cluster cluster [] = []
update_cluster cluster (c ∷ cs) =
    if c.id == cluster.id then cluster ∷ cs else c ∷ update_cluster cluster cs
