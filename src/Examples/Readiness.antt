-- ===== src/Examples/Readiness.antt =====
-- The instance of the preceding example, once the goroutine has listed its cluster.
use provider_operator_exampl.Api.{ready, ProviderInstance, ParameterType-discrete}
use provider_operator_exampl.Base.{
  ok, some, none, has_suffix, [], ◌∷◌, ◌++◌, String-dec, ◌≡◌, ◌≤◌, refl, arith, length,
}
use provider_operator_exampl.Base.Dict
use provider_operator_exampl.Examples.Backing.{
  first_state, next_state, stored, put_blank, reached, stored_there, stored_named,
}
use provider_operator_exampl.Examples.Objects.{key, inventory, api_secret}
use provider_operator_exampl.FakeClusters.{
  FakeClusters, new_cluster, judge, find_cluster, new_fake_clusters,
}
use provider_operator_exampl.FakeClusters.Steps.{append}
use provider_operator_exampl.FakeClusters.Steps.Growth.{all_clusters}
use provider_operator_exampl.FakeService.{
  fake_service, get_cluster, create_cluster, create_cloud_service, send,
}
use provider_operator_exampl.FakeService.Extend.{with_clusters, lift}
use provider_operator_exampl.Host.{done}
use provider_operator_exampl.Host.Memory.{keep_instance, Store, memory}
use provider_operator_exampl.Host.Memory.Calm.{memory-CalmHost, AnyStore}
use provider_operator_exampl.Host.Memory.Served.{memory_server}
use provider_operator_exampl.Host.Memory.Served.Stored.{stored_only, memory-KeepsInstances}
use provider_operator_exampl.Host.Server.{key_of}
use provider_operator_exampl.Instance
use provider_operator_exampl.Service.{Cluster}
use provider_operator_exampl.Service.Info.{populate_instance_info}
use provider_operator_exampl.System.Backing.{cloud_step}
use provider_operator_exampl.System.Backing.Invariant.{SystemReach, at_start, then_step, other}
use provider_operator_exampl.System.Readiness.{instance_becomes_ready}

abbrev orders : Cluster
orders = new_cluster (record { name = "orders"; provider = "AWS" })

-- The goroutine has received the cluster and not yet listed it.
waiting :
    (next_state.1.add_held ≡ some orders)
    × (length (all_clusters next_state.1) ≤ length (next_state.1.clusters ++ (orders ∷ [])))
    × (memory.get_instance (key "instance") next_state.0 ≡ ok stored next_state.0)
    × (memory.get_inventory stored.spec.inventory_ref next_state.0 ≡ ok inventory next_state.0)
    × (memory.get_secret (key "credentials") next_state.0 ≡ ok api_secret next_state.0)
    × ((x : ProviderInstance)
        → memory.update_instance_status x next_state.0 ≡ ok x (keep_instance x next_state.0))
unfolding String-dec Instance.reconcile lift create_cloud_service create_cluster
    ParameterType-discrete judge has_suffix find_cluster new_fake_clusters Instance.record_cluster
    populate_instance_info Dict.lookup send
waiting = (refl, omega arith, refl, refl, refl, λ x. refl)

caught_up : FakeClusters
caught_up = record next_state.1 {
  add_held = none;
  clusters = next_state.1.clusters ++ (orders ∷ []);
}

later :
    SystemReach memory memory_server stored_only AnyStore
      (next_state.0, next_state.1)
      (next_state.0, caught_up)
unfolding caught_up
later = then_step at_start (other (cloud_step (append orders waiting.0)))

enough : length (all_clusters next_state.1) ≤ length caught_up.clusters
unfolding caught_up
enough = waiting.1

instance_becomes_ready_example :
    (c : Cluster) × (object : ProviderInstance) × (w : Store) × (get_cluster memory tt
        stored.status.instance_id
        (next_state.0, caught_up)
      ≡ ok (some c) (next_state.0, caught_up))
    × (Instance.reconcile
          (with_clusters memory)
          (fake_service memory)
          (key "instance")
          (next_state.0, caught_up)
        ≡ ok done (w, caught_up))
    × (memory_server.instance_at w (key_of stored.metadata) ≡ some object)
    × (object.status.instance_id ≡ stored.status.instance_id)
    × (populate_instance_info c ≡ some object.status.instance_info)
    × (object.status.phase ≡ ready)
instance_becomes_ready_example =
    instance_becomes_ready memory memory_server stored_only AnyStore memory-KeepsInstances
      memory-CalmHost first_state.0 next_state.0 next_state.0 next_state.1 caught_up tt put_blank
      reached later enough (key "instance") (key "instance") stored stored inventory api_secret
      next_state.0 next_state.0 next_state.0 stored_there.0 stored_named waiting.2 refl waiting.3
      waiting.4 (λ x. (x, keep_instance x next_state.0, waiting.5 x))
