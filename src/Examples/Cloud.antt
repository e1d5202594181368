-- ===== src/Examples/Cloud.antt =====
-- The provider cloud and its service, on the fixed clusters and a request for one more.
use mathlib.Core.Option
use provider_operator_exampl.Base.{
  ne_of_test, itoa, none, arith, false, ok, has_suffix, ◌≢◌, [], some, ◌++◌, ◌∷◌, ◌≡◌, String-dec,
  String, refl,
}
use provider_operator_exampl.FakeClusters.{
  update_cluster, cluster2, cluster3, fake_region, a_date, accepted, cluster_id, delete_cluster,
  find_cluster, judge, new_cluster, FakeClusters, CreateClusterRequest, fixed_clusters,
  new_fake_clusters, cluster1,
}
use provider_operator_exampl.FakeClusters.Steps.{
  Reach, here, next, create, receive_add, append, remove,
}
use provider_operator_exampl.FakeClusters.Steps.Draining.{AddReach, IsIdle}
use provider_operator_exampl.FakeClusters.Steps.Growth.{all_clusters}
use provider_operator_exampl.FakeClusters.Steps.Bag.{bag_of, effect, Step-bag}
use provider_operator_exampl.Examples.Objects.{key, start, store, instance_named}
use provider_operator_exampl.Service.{Cluster}
use provider_operator_exampl.FakeClusters.Delete.{delete_cluster-perm}
use mathlib.Core.List.{Perm}
use provider_operator_exampl.Base.Dict.{lookup, Dict}
use provider_operator_exampl.FakeClusters.Lookup.{NodupIds}
use provider_operator_exampl.FakeClusters.Steps.Invariant.{reachable-Inv, Inv}
use provider_operator_exampl.FakeClusters.Steps.Races.{
  pending, duplicate_reachable, step, careful-NodupIds, CarefulReach,
}
use provider_operator_exampl.FakeService.{create_cluster, get_cluster, send, get_cluster_parameter}
use provider_operator_exampl.FakeService.Creation.{create_cluster-ok, created_found, request_of}
use provider_operator_exampl.Host.Memory.{memory}
use provider_operator_exampl.Api.{ParameterType-discrete, provisioning_name}
use provider_operator_exampl.Service.Info.{base_info, dns_key, name_key, populate_instance_info}
use provider_operator_exampl.Service.Info.Keys.{populate_instance_info_lem}
use provider_operator_exampl.Service.Calm.{Replied}
use provider_operator_exampl.FakeService.Calm.{IsGood}
use provider_operator_exampl.Host.Memory.Calm.{memory-CalmHost, AnyStore}
use provider_operator_exampl.System.Jobs.{
  perform_all-Replied, connection_job, instance_job, inventory_job, perform_all,
}
use provider_operator_exampl.FakeClusters.Update.{update_cluster_lem, ids}

abbrev orders_request : CreateClusterRequest
orders_request = record { name = "orders"; provider = "GCP" }

orders_accepted : judge orders_request fixed_clusters ≡ accepted (new_cluster orders_request)
unfolding judge find_cluster String-dec has_suffix
orders_accepted = refl

orders_unlisted : find_cluster (cluster_id orders_request) (pending new_fake_clusters) ≡ none
unfolding find_cluster new_fake_clusters
orders_unlisted = refl

sent :
    Reach new_fake_clusters
      (record new_fake_clusters { add_queue = new_cluster orders_request ∷ [] })
unfolding new_fake_clusters
sent = next here (
    create orders_request (new_cluster orders_request) fixed_clusters [] refl orders_accepted
      (omega arith))

abbrev with_orders : FakeClusters
with_orders = record new_fake_clusters {
  clusters = fixed_clusters ++ (new_cluster orders_request ∷ []);
}

carefully_sent : CarefulReach new_fake_clusters with_orders
unfolding new_fake_clusters
carefully_sent =
    let first =
      step CarefulReach.start
        (create orders_request (new_cluster orders_request) fixed_clusters [] refl orders_accepted
          (omega arith))
        (refl, orders_unlisted) in
    let second = step first (receive_add (new_cluster orders_request) [] refl refl) tt in
    step second (append (new_cluster orders_request) refl) tt

reachable-Inv_example :
    Inv (record new_fake_clusters { add_queue = new_cluster orders_request ∷ [] })
reachable-Inv_example = reachable-Inv sent

careful-NodupIds_example : NodupIds with_orders.clusters
careful-NodupIds_example = careful-NodupIds carefully_sent

duplicate_reachable_example :
    (s : FakeClusters) × Reach new_fake_clusters s
    × (s.clusters
        ≡ fixed_clusters ++ (new_cluster orders_request ∷ new_cluster orders_request ∷ []))
    × (NodupIds s.clusters → ⊥)
duplicate_reachable_example = duplicate_reachable orders_request orders_accepted

delete_cluster-perm_example :
    Perm
      (delete_cluster cluster2.id ((cluster1 ∷ []) ++ (cluster2 ∷ cluster3 ∷ [])))
      ((cluster1 ∷ []) ++ (cluster3 ∷ []))
delete_cluster-perm_example =
    delete_cluster-perm cluster2.id (cluster1 ∷ []) (cluster3 ∷ []) cluster2 refl
      (ne_of_test cluster1.id cluster2.id refl, tt)

-- The goroutine that deletes holds the identifier of the first cluster.
abbrev deleting : FakeClusters
deleting = record new_fake_clusters { delete_held = some cluster1.id }

deleting-NodupIds : NodupIds deleting.clusters
unfolding find_cluster String-dec new_fake_clusters
deleting-NodupIds = (refl, (refl, (refl, tt)))

Step-bag_example :
    bag_of (delete_cluster cluster1.id deleting.clusters)
    ≡ effect {s = deleting} (remove cluster1.id refl) (bag_of deleting.clusters)
Step-bag_example = Step-bag {s = deleting} (remove cluster1.id refl) deleting-NodupIds

orders_created :
    create_cluster memory tt (instance_named "orders") start
    ≡ ok (some (new_cluster (request_of (instance_named "orders")))) (
      store (instance_named "orders"),
      send (new_cluster (request_of (instance_named "orders"))) new_fake_clusters,
    )
unfolding create_cluster String-dec ParameterType-discrete judge has_suffix find_cluster
    new_fake_clusters
orders_created = refl

create_cluster-ok_example :
    (get_cluster_parameter (instance_named "orders") provisioning_name ≢ "")
    × (has_suffix (request_of (instance_named "orders")).name "invalid-cluster-creation-request"
        ≡ false)
    × (find_cluster (cluster_id (request_of (instance_named "orders"))) new_fake_clusters.clusters
        ≡ none)
    × (some (new_cluster (request_of (instance_named "orders")))
        ≡ some (new_cluster (request_of (instance_named "orders"))))
    × (store (instance_named "orders") ≡ store (instance_named "orders"))
    × (send (new_cluster (request_of (instance_named "orders"))) new_fake_clusters
        ≡ send (new_cluster (request_of (instance_named "orders"))) new_fake_clusters)
create_cluster-ok_example =
    create_cluster-ok memory (instance_named "orders") (store (instance_named "orders"))
      (store (instance_named "orders")) new_fake_clusters
      (send (new_cluster (request_of (instance_named "orders"))) new_fake_clusters)
      (some (new_cluster (request_of (instance_named "orders")))) orders_created

created_found_example :
    (t : FakeClusters) × AddReach
      (send (new_cluster (request_of (instance_named "orders"))) new_fake_clusters)
      t
    × IsIdle t
    × (t.clusters
        ≡ all_clusters new_fake_clusters
          ++ (new_cluster (request_of (instance_named "orders")) ∷ []))
    × (found : Cluster) × (get_cluster memory tt
          (cluster_id (request_of (instance_named "orders")))
          (store (instance_named "orders"), t)
        ≡ ok (some found) (store (instance_named "orders"), t))
    × (found.id ≡ cluster_id (request_of (instance_named "orders")))
created_found_example =
    created_found memory (instance_named "orders") (store (instance_named "orders"))
      (store (instance_named "orders")) new_fake_clusters
      (send (new_cluster (request_of (instance_named "orders"))) new_fake_clusters)
      (some (new_cluster (request_of (instance_named "orders")))) orders_created

populate_instance_info_lem_example :
    (info : Dict String) × (populate_instance_info cluster1 ≡ some info)
    × (lookup (name_key 1) info ≡ some "region-1")
    × (lookup (dns_key 1) info ≡ some "free-tier4.cloud")
    × (lookup "numOfRegions" info ≡ some (itoa 1))
    × (lookup "state" info ≡ lookup "state" (base_info cluster1 a_date a_date))
populate_instance_info_lem_example =
    populate_instance_info_lem cluster1 a_date a_date 0 (fake_region "region-1" "free-tier4.cloud")
      "state" refl refl refl (omega arith)

perform_all-Replied_example : Replied (IsGood memory AnyStore) (
    perform_all memory
      (inventory_job (key "inventory")
        ∷ instance_job (key "instance")
        ∷ connection_job (key "connection")
        ∷ [])
      (store (instance_named "orders"), new_fake_clusters))
perform_all-Replied_example =
    perform_all-Replied memory AnyStore memory-CalmHost
      (inventory_job (key "inventory")
        ∷ instance_job (key "instance")
        ∷ connection_job (key "connection")
        ∷ [])
      (store (instance_named "orders")) new_fake_clusters tt here

abbrev moved_cluster : Cluster
moved_cluster = record cluster2 { cloud_provider = "GCP" }

update_cluster_lem_example :
    (ids (update_cluster moved_cluster fixed_clusters) ≡ ids fixed_clusters)
    × (find_cluster moved_cluster.id (update_cluster moved_cluster fixed_clusters)
        ≡ Option.map
            (λ (_ : Cluster). moved_cluster)
            (find_cluster moved_cluster.id fixed_clusters))
    × (find_cluster cluster1.id (update_cluster moved_cluster fixed_clusters)
        ≡ find_cluster cluster1.id fixed_clusters)
update_cluster_lem_example =
    update_cluster_lem moved_cluster cluster1.id fixed_clusters
      (ne_of_test cluster1.id cluster2.id refl)
