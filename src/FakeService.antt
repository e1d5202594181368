-- ===== src/FakeService.antt =====
-- FakeProviderService of controllers/dbaas/testutil/fakeproviderservice.go, which implements the
-- provider interface over the provider cloud of fakeclient.go. The cloud is a variable of the
-- process, so the host is extended by it.
pub mod Extend
pub mod Lifted
pub mod Laws
pub mod Creation
pub mod Calm
use mathlib.Core.Logic.{ite}
use provider_operator_exampl.Host.{Host}
use provider_operator_exampl.FakeService.Extend.{with_clusters, lift}
use provider_operator_exampl.Api.{
  provisioning_name, ParameterType-discrete, provisioning_cloud_provider, DatabaseService,
  ObjectKey, ProviderInstance, ParameterType,
}
use provider_operator_exampl.Base.{
  ◌<>◌, ok, length, ◌++◌, err, ltb, panic, ◌==◌, none, [], if◌then◌else◌, ◌∷◌, return, some, throw,
  Option, handle, M, List, String,
}
use provider_operator_exampl.FakeClusters.{
  held_list, already_exists, channel_capacity, accepted, creation_failed, judge, find_cluster,
  FakeClusters, CreateClusterRequest,
}
use provider_operator_exampl.Service.{Cluster, ProviderService}
use provider_operator_exampl.Base.Dict.{lookup, Dict}
use provider_operator_exampl.Service.Info.{populate_instance_info}

pub record Credential : Type 0 where
  pub credential_field1 : String
  pub credential_field2 : String

-- A missing key of a Go map reads as the empty value.
abbrev pub text_at : String → Dict String → String
text_at key contents = elim (lookup key contents) [ none ↦ "" | some v ↦ v ]

unfoldable pub find_parameter : ParameterType → List (ParameterType × String) → String
find_parameter key [] = ""
find_parameter key ((k, v) ∷ parameters) =
    ite (ParameterType-discrete k key) v (find_parameter key parameters)

unfoldable pub get_cluster_parameter : ProviderInstance → ParameterType → String
unfolding find_parameter
get_cluster_parameter instance key = find_parameter key instance.spec.provisioning_parameters

-- The entry of DiscoverClusters for a cluster.
abbrev pub service_of : Cluster → Dict String → DatabaseService
service_of c info = record { service_id = c.id; service_name = c.name; service_info = info }

-- The loop of DiscoverClusters; `none` is a panic.
unfoldable pub discover_list : List Cluster → Option (List DatabaseService)
discover_list [] = some []
discover_list (c ∷ cs) = elim (populate_instance_info c) [
  | none ↦ none
  | some info ↦ elim (discover_list cs) [
    | none ↦ none
    | some services ↦ some (service_of c info ∷ services)
  ]
]

-- The goroutine that adds makes room: it lists what it holds and receives the next cluster.
unfoldable pub serve : FakeClusters → FakeClusters
serve f = elim f.add_queue [
  | [] ↦ f
  | c ∷ rest ↦ record f {
    add_queue = rest;
    add_held = some c;
    clusters = f.clusters ++ held_list f.add_held;
  }
]

-- `f.addCluster <- cluster`; a send on a full channel ends once the goroutine has received.
unfoldable pub send : Cluster → FakeClusters → FakeClusters
unfolding serve
send c f =
    let g = if ltb (length f.add_queue) channel_capacity then f else serve f in
    record g { add_queue = g.add_queue ++ (c ∷ []) }

module _ (H : Host) where
  abbrev World : Type 0
  World = H.World × FakeClusters

  unfoldable pub retrieve_client_credential : ObjectKey → M World H.Err Credential
  retrieve_client_credential selector =
      handle (lift (H.get_secret selector)) (λ e. throw e)
        λ secret w.
          let field1 = text_at "CredentialField1" secret.contents in
          let field2 = text_at "CredentialField2" secret.contents in
          if field1 == ""
          then err (H.new_error "failed to retrieve API credential1") w
          else if field2 == ""
          then err (H.new_error "failed to retrieve API credential2") w
          else ok (record { credential_field1 = field1; credential_field2 = field2 }) w

  -- The credentials and the error are both dropped.
  unfoldable pub create_cloud_service : ObjectKey → M World H.Err (Unit {0})
  unfolding retrieve_client_credential
  create_cloud_service selector =
      handle (retrieve_client_credential selector) (λ _. return tt) (λ _. return tt)

  -- ListClusters of the API client: the pointer to the list.
  abbrev pub list_clusters : M World H.Err (List Cluster)
  list_clusters (w, f) = ok f.clusters (w, f)

  unfoldable pub discover_clusters : Unit {0} → M World H.Err (List DatabaseService)
  discover_clusters _ =
      handle list_clusters (λ e. throw e)
        λ clusters w. elim (discover_list clusters) [
          | none ↦ panic w
          | some services ↦ ok services w
        ]

  -- CreateCluster of the API client.
  unfoldable pub request_cluster : CreateClusterRequest → M World H.Err (Option Cluster)
  request_cluster request (w, f) = elim (judge request f.clusters) [
    | creation_failed ↦ err (H.new_error "{\"code\": 0, \"message\": \"creation failed\"}") (w, f)
    | already_exists ↦
        err (H.new_error "{\"code\": 6, \"message\": \"code = AlreadyExists\"}") (w, f)
    | accepted c ↦ ok (some c) (w, send c f)
  ]

  unfoldable pub create_cluster : Unit {0} → ProviderInstance → M World H.Err (Option Cluster)
  unfolding get_cluster_parameter request_cluster
  create_cluster _ instance =
      let given = get_cluster_parameter instance provisioning_cloud_provider in
      let provider = if given == "" then "AWS" else given in
      let name = get_cluster_parameter instance provisioning_name in
      if name == ""
      then throw (H.new_error ("parameter " <> (H.provisioning_name_text <> " is required")))
      else request_cluster (record { name = name; provider = provider })

  -- GetCluster of the API client.
  abbrev pub fetch_cluster : String → M World H.Err (Option Cluster)
  fetch_cluster id (w, f) = elim (find_cluster id f.clusters) [
    | none ↦ err (H.new_error "could not find cluster") (w, f)
    | some c ↦ ok (some c) (w, f)
  ]

  unfoldable pub get_cluster : Unit {0} → String → M World H.Err (Option Cluster)
  get_cluster _ id = handle (fetch_cluster id) (λ e. throw e) (λ cluster. return cluster)

  abbrev pub fake_service : ProviderService (with_clusters H)
  fake_service = record {
    Cloud = Unit {0};
    create_cloud_service = create_cloud_service;
    discover_clusters = discover_clusters;
    create_cluster = create_cluster;
    get_cluster = get_cluster;
  }
