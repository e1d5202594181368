-- ===== src/Examples/Backing.antt =====
-- The identifiers of the stored instances, where the instance controller has made a cluster.
use provider_operator_exampl.Examples.Objects.{
  inventory, open_store, api_secret, instance_named, key,
}
use provider_operator_exampl.Host.Memory.{keep_instance, Store, memory}
use provider_operator_exampl.Host.Memory.Served.{memory_server}
use provider_operator_exampl.Host.Memory.Calm.{memory-CalmHost, AnyStore}
use provider_operator_exampl.FakeClusters.Steps.Draining.{AddReach, IsIdle}
use provider_operator_exampl.System.Backing.Invariant.{
  stored_instance_found, stored_instance-IsKnown, SystemReach, at_start, then_step, reconciles,
}
use provider_operator_exampl.Base.Dict
use provider_operator_exampl.System.Jobs.{instance_job}
use provider_operator_exampl.Base.{
  [], ◌∷◌, ◌++◌, List, Option, has_suffix, false, true, arith, if◌then◌else◌, Bool, ok, ne_of_test,
  ◌≢◌, ◌∙◌, refl, String-dec, world, some, none, String, ◌≡◌,
}
use provider_operator_exampl.Api.{ParameterType-discrete, ready, ObjectKey, ProviderInstance}
use provider_operator_exampl.Host.Memory.Served.Stored.{
  stored_only, memory-KeepsInstances, memory_server-instance_at,
}
use provider_operator_exampl.Instance
use provider_operator_exampl.FakeService.Extend.{with_clusters, lift}
use provider_operator_exampl.FakeService.{
  fake_service, create_cloud_service, create_cluster, get_cluster,
}
use provider_operator_exampl.FakeClusters.{
  cluster1, judge, find_cluster, new_fake_clusters, FakeClusters,
}
use provider_operator_exampl.Service.Info.{populate_instance_info}
use provider_operator_exampl.FakeClusters.Steps.{here}
use provider_operator_exampl.FakeClusters.Steps.Growth.{IsKnown}
use provider_operator_exampl.Service.{Cluster}
use provider_operator_exampl.Host.{done}
use provider_operator_exampl.Host.Server.{key_of}
use provider_operator_exampl.System.Completion.{instance_completed}
use provider_operator_exampl.System.Backing.{Move, OtherSteps, none_yet, and_then, cloud_step}
use provider_operator_exampl.System.Backing.Amid.{perform_amid}
use provider_operator_exampl.FakeClusters.Steps.{append, receive_add}

abbrev pub first_state : Store × FakeClusters
first_state = (open_store (instance_named "orders"), new_fake_clusters)

-- A move of the goroutine that adds.
abbrev ticked : FakeClusters → Option Cluster → List Cluster → FakeClusters
ticked f (some c) queue = record f { add_held = none; clusters = f.clusters ++ (c ∷ []) }
ticked f none (c ∷ queue) = record f { add_queue = queue; add_held = some c }
ticked f none [] = f

pub tick_steps :
    (w : Store) (f : FakeClusters) (held : Option Cluster) (queue : List Cluster)
    → f.add_held ≡ held
    → f.add_queue ≡ queue
    → OtherSteps memory memory_server stored_only AnyStore (w, f) (w, ticked f held queue)
tick_steps w f (some c) queue h q = and_then none_yet (cloud_step (append c h))
tick_steps w f none (c ∷ queue) h q = and_then none_yet (cloud_step (receive_add c queue q h))
tick_steps w f none [] h q = none_yet

abbrev tick : Move memory memory_server stored_only AnyStore
tick = record {
  go = λ s. (s.0, ticked s.1 s.1.add_held s.1.add_queue);
  by_steps = λ s. tick_steps s.0 s.1 s.1.add_held s.1.add_queue refl refl;
}

abbrev moves : List (Move memory memory_server stored_only AnyStore)
moves = tick ∷ tick ∷ tick ∷ tick ∷ tick ∷ tick ∷ []

abbrev pub next_state : Store × FakeClusters
next_state =
    (world (
      perform_amid memory memory_server stored_only AnyStore (instance_job (key "instance"))
        (first_state, moves))).0

if_blank :
    (b : Bool) (x y : ProviderInstance)
    → x.status.instance_id ≡ ""
    → (if b then some x else none) ≡ some y
    → y.status.instance_id ≡ ""
if_blank true x y blank e = let same : x ≡ y = ground arith in rw same at blank
if_blank false x y blank e = absurd (ground arith)

pub put_blank :
    (k : ObjectKey) (y : ProviderInstance)
    → first_state.0.instances k ≡ some y
    → y.status.instance_id ≡ ""
put_blank k y at = if_blank _ (instance_named "orders") y refl at

pub reached :
    SystemReach memory memory_server stored_only AnyStore first_state (next_state.0, next_state.1)
reached = then_step at_start (reconciles (instance_job (key "instance")) moves)

abbrev pub orders_id : String
orders_id = "a-cluster-instance-id-orders"

abbrev pub stored : ProviderInstance
stored = elim (next_state.0.instances (key "instance")) [ none ↦ instance_named "" | some y ↦ y ]

pub stored_there :
    (next_state.0.instances (key "instance") ≡ some stored)
    × (stored.status.instance_id ≡ orders_id)
unfolding String-dec Instance.reconcile lift create_cloud_service create_cluster
    ParameterType-discrete judge has_suffix find_cluster new_fake_clusters Instance.record_cluster
    populate_instance_info Dict.lookup
stored_there = (refl, refl)

stored_at : memory_server.instance_at next_state.0 (key "instance") ≡ some stored
stored_at = memory_server-instance_at next_state.0 (key "instance") ∙ stored_there.0

pub stored_named : stored.status.instance_id ≢ ""
stored_named = rw stored_there.1 (ne_of_test orders_id "" refl)

stored_instance-IsKnown_example : IsKnown next_state.1 stored.status.instance_id
stored_instance-IsKnown_example =
    stored_instance-IsKnown memory memory_server stored_only AnyStore memory-KeepsInstances
      memory-CalmHost first_state.0 next_state.0 next_state.1 tt put_blank reached (key "instance")
      stored stored_at stored_named

stored_instance_found_example :
    (g : FakeClusters) × AddReach next_state.1 g
    × IsIdle g
    × (c : Cluster) × (get_cluster memory tt stored.status.instance_id (next_state.0, g)
        ≡ ok (some c) (next_state.0, g))
    × (c.id ≡ stored.status.instance_id)
stored_instance_found_example =
    stored_instance_found memory memory_server stored_only AnyStore memory-KeepsInstances
      memory-CalmHost first_state.0 next_state.0 next_state.1 tt put_blank reached (key "instance")
      stored stored_at stored_named

-- An instance that carries the identifier of the first cluster of the cloud.
abbrev adopting : ProviderInstance
adopting = record (instance_named "orders") {
  status = record (instance_named "orders").status { instance_id = cluster1.id };
}

first_found : find_cluster cluster1.id new_fake_clusters.clusters ≡ some cluster1
unfolding find_cluster String-dec new_fake_clusters
first_found = refl

instance_completed_example :
    (object : ProviderInstance) × (w : Store) × (Instance.reconcile
        (with_clusters memory)
        (fake_service memory)
        (key "instance")
        (open_store adopting, new_fake_clusters)
      ≡ ok done (w, new_fake_clusters))
    × (memory_server.instance_at w (key_of adopting.metadata) ≡ some object)
    × (object.status.instance_id ≡ cluster1.id)
    × (populate_instance_info cluster1 ≡ some object.status.instance_info)
    × (object.status.phase ≡ ready)
unfolding String-dec
instance_completed_example =
    instance_completed memory memory_server (key "instance") adopting inventory api_secret cluster1
      (open_store adopting) (open_store adopting) (open_store adopting) (open_store adopting)
      new_fake_clusters here refl refl refl (λ x. (x, keep_instance x (open_store adopting), refl))
      (ne_of_test cluster1.id "" refl) first_found
