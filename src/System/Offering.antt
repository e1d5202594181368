-- ===== src/System/Offering.antt =====
-- The inventory controller and the connection controller together: a cluster that the one has
-- written into the inventory can be bound by the other.
use provider_operator_exampl.Api.{
  condition_true, Condition, ConfigMap, DatabaseService, ObjectKey, ProviderConnection,
  ProviderInventory, Secret,
}
use provider_operator_exampl.Api.Reasons.{inventory_condition_type_ready}
use provider_operator_exampl.Base.{
  List, [], ◌∷◌, String, String-dec, M, some, false, ok, err, inl, inr, ◌≡◌, ◌∙◌, sym, arith,
}
use provider_operator_exampl.Connection
use provider_operator_exampl.Connection.{
  create_or_update_secret, create_or_update_config_map, get_cluster_instance,
}
use provider_operator_exampl.Connection.Binding.{reconcile-Bound}
use provider_operator_exampl.Connection.Build.{find_service}
use provider_operator_exampl.Connection.Ends.{Bound}
use provider_operator_exampl.Connection.Lookup.{
  IsSynced, find_service-IsFirst, get_cluster_instance_iff,
}
use provider_operator_exampl.FakeClusters.{find_cluster, new_fake_clusters, FakeClusters}
use provider_operator_exampl.FakeClusters.Steps.{Reach}
use provider_operator_exampl.FakeService.{fake_service}
use provider_operator_exampl.FakeService.Extend.{with_clusters, lift}
use provider_operator_exampl.FakeService.Laws.{Lists}
use provider_operator_exampl.FakeService.Lifted.{
  extend_conditions, extend_server, extend_server_lem,
}
use provider_operator_exampl.Host.{Host, done}
use provider_operator_exampl.Host.Server.{SetsConditions, Server, key_of, find_condition}
use provider_operator_exampl.Inventory
use provider_operator_exampl.Inventory.{secret_selector, with_services}
use provider_operator_exampl.Inventory.Ends.{stored, conflict}
use provider_operator_exampl.Service.{Cluster}
use provider_operator_exampl.System.Mirror.{inventory_mirrors_cloud}
use provider_operator_exampl.System.Provisioning.{create_cloud_service-ok}

lift_ok :
    {W E A : Type 0} (m : M W E A) (w w' : W) (f : FakeClusters) (a : A)
    → m w ≡ ok a w'
    → lift m (w, f) ≡ ok a (w', f)
unfolding lift
lift_ok m w w' f a h = ground arith

-- Of two lists with the same identifiers and names, the first that has an identifier agrees.
find_service-Lists :
    (id : String) (services : List DatabaseService) (cs : List Cluster) (c : Cluster)
    → Lists services cs
    → find_cluster id cs ≡ some c
    → (s : DatabaseService) × (find_service id services ≡ some s)
      × (s.service_id ≡ c.id)
      × (s.service_name ≡ c.name)
unfolding find_cluster find_service
find_service-Lists id services [] c l e = absurd (ground arith)
find_service-Lists id [] (d ∷ cs) c (ids, names) e = absurd (ground arith)
find_service-Lists id (s ∷ services) (d ∷ cs) c (ids, names) e =
    let same_id : s.service_id ≡ d.id = ground arith in
    let same_name : s.service_name ≡ d.name = ground arith in
    elim (String-dec d.id id) [
      | yes same ↦ (s, ground arith, ground arith, ground arith)
      | no differ ↦
          let (t, found, id', name) =
            find_service-Lists id services cs c (ground arith, ground arith) (ground arith) in
          (t, ground arith, id', name)
    ]

find_condition-IsSynced :
    (cs : List Condition) (d : Condition)
    → find_condition inventory_condition_type_ready cs ≡ some d
    → d.status ≡ condition_true
    → IsSynced cs
unfolding find_condition
find_condition-IsSynced [] d e s = absurd (ground arith)
find_condition-IsSynced (c ∷ cs) d e s = elim (String-dec c.type inventory_condition_type_ready) [
  | yes same ↦ let eq : c ≡ d = ground arith in inl (same, rw eq s)
  | no differ ↦ inr (find_condition-IsSynced cs d (ground arith) s)
]

module _ (H : Host) (V : Server H) (C : SetsConditions H) where
  open H use {World, Err}

  abbrev pub Hosting : Host
  Hosting = with_clusters H

  -- The inventory that is stored offers the clusters of the cloud.
  abbrev Offers : ProviderInventory → FakeClusters → World × FakeClusters → Type 0
  Offers inventory f w =
      (object : ProviderInventory) × (V.inventory_at w.0 (key_of inventory.metadata) ≡ some object)
      × IsSynced object.status.conditions
      × Lists object.status.database_services f.clusters

  inventory-Offers :
      (request : ObjectKey) (inventory : ProviderInventory) (w w₁ : World) (f : FakeClusters)
      (w' : World × FakeClusters)
      → Reach new_fake_clusters f
      → H.get_inventory request w ≡ ok inventory w₁
      → ((x : ProviderInventory) (v : World × FakeClusters) (e : Err)
          → Hosting.update_inventory_status x v ≡ err e w'
          → H.is_conflict e ≡ false)
      → Inventory.reconcile Hosting (fake_service H) request (w, f) ≡ ok done w'
      → Offers inventory f w'
  inventory-Offers request inventory w w₁ f w' r g alone h =
      let (services, w₃, (l, written)) =
        inventory_mirrors_cloud H V C request inventory w w₁ f w' r g h in
      elim written [
        | stored s ↦ (
          s.object,
          sym (extend_server_lem H V w' (key_of inventory.metadata)) ∙ s.at_key,
          find_condition-IsSynced s.object.status.conditions s.condition.shown s.condition.found
              s.condition.same_status,
          rw s.services_kept l,
        )
        | conflict e refused is ↦ absurd (cc (alone _ w₃ e refused, is))
      ]

  -- That a reconciliation of a connection finds what it needs: the API key, room for its two
  -- objects, whichever service is bound, and no refusal of its status.
  pub record Provides (connection : ProviderConnection) (selector : ObjectKey) (v : World)
      (g : FakeClusters) : Type 0 where
    pub api_key : Secret
    pub after_key : World
    pub reads_key : H.get_secret selector v ≡ ok api_key after_key
    pub secret : Secret
    pub after_secret : World × FakeClusters
    pub makes_secret :
        create_or_update_secret Hosting connection (after_key, g) ≡ ok secret after_secret
    pub makes_config_map :
        (s : DatabaseService)
        → (cm : ConfigMap) × (v' : World × FakeClusters) × (create_or_update_config_map Hosting
              connection s after_secret
            ≡ ok cm v')
          × ((x : ProviderConnection)
              → (y : ProviderConnection) × (v'' : World × FakeClusters)
                × (Hosting.update_connection_status x v' ≡ ok y v''))

  -- The service that the connection finds in the inventory is the cluster's, and the reconciliation
  -- ends well, with the connection bound to it.
  abbrev pub Binds :
      ProviderConnection → ProviderInventory → ObjectKey → World × FakeClusters → Cluster → Type 0
  Binds connection read creq v c =
      (s : DatabaseService) × (v' : World × FakeClusters) × (get_cluster_instance Hosting read
          connection.spec.database_service_id
        ≡ inr s)
      × (s.service_id ≡ c.id)
      × (s.service_name ≡ c.name)
      × (Connection.reconcile Hosting (fake_service H) creq v ≡ ok done v')
      × Bound Hosting (extend_server H V) (extend_conditions H C) (fake_service H) connection s v'

  offer-Binds :
      (creq : ObjectKey) (connection : ProviderConnection) (read object : ProviderInventory)
      (c : Cluster) (f g : FakeClusters) (v v₁ v₂ : World)
      → Lists object.status.database_services f.clusters
      → IsSynced object.status.conditions
      → read.status ≡ object.status
      → find_cluster connection.spec.database_service_id f.clusters ≡ some c
      → H.get_connection creq v ≡ ok connection v₁
      → H.get_inventory connection.spec.inventory_ref v₁ ≡ ok read v₂
      → Provides connection (secret_selector read) v₂ g
      → Binds connection read creq (v, g) c
  offer-Binds creq connection read object c f g v v₁ v₂ lists ready same listed gc gi p =
      let id = connection.spec.database_service_id in
      let (s, found, s_id, s_name) =
        find_service-Lists id object.status.database_services f.clusters c lists listed in
      let first = find_service-IsFirst id read.status.database_services {s = s} (rw same found) in
      let chosen = (get_cluster_instance_iff Hosting read id s).1 (rw same ready, first) in
      let (cm, v', b, writes) = p.makes_config_map s in
      let (v'', e, bound) =
        reconcile-Bound Hosting (extend_server H V) (extend_conditions H C) (fake_service H) creq
          connection read s tt p.secret cm (v, g) (v₁, g) (v₂, g) (p.after_key, g) p.after_secret v'
          (lift_ok (H.get_connection creq) v v₁ g connection gc)
          (lift_ok (H.get_inventory connection.spec.inventory_ref) v₁ v₂ g read gi) (rw same ready)
          first
          (create_cloud_service-ok H (secret_selector read) p.api_key v₂ p.after_key g p.reads_key)
          p.makes_secret b writes in
      (s, v'', chosen, s_id, s_name, e, bound)

  -- In every state that the provider cloud reaches: after a reconciliation of an inventory that is
  -- there, that ends well and in a state to which no refused update of an inventory leads by a
  -- conflict, let a connection name a cluster of the cloud, and let its reconciliation read the
  -- inventory with the status that was stored and find the API key and its writes to succeed. Then
  -- getClusterInstance finds a service with the identifier and the name of that cluster, and the
  -- reconciliation ends well, with a ready status and both objects stored, whatever the cloud has
  -- become.
  pub cluster_bound :
      (request creq : ObjectKey) (inventory read : ProviderInventory)
      (connection : ProviderConnection) (c : Cluster) (w w₁ v v₁ v₂ : World) (f g : FakeClusters)
      (w' : World × FakeClusters)
      → Reach new_fake_clusters f
      → H.get_inventory request w ≡ ok inventory w₁
      → ((x : ProviderInventory) (u : World × FakeClusters) (e : Err)
          → Hosting.update_inventory_status x u ≡ err e w'
          → H.is_conflict e ≡ false)
      → Inventory.reconcile Hosting (fake_service H) request (w, f) ≡ ok done w'
      → find_cluster connection.spec.database_service_id f.clusters ≡ some c
      → H.get_connection creq v ≡ ok connection v₁
      → H.get_inventory connection.spec.inventory_ref v₁ ≡ ok read v₂
      → ((x : ProviderInventory)
          → V.inventory_at w'.0 (key_of inventory.metadata) ≡ some x
          → read.status ≡ x.status)
      → Provides connection (secret_selector read) v₂ g
      → Binds connection read creq (v, g) c
  cluster_bound request creq inventory read connection c w w₁ v v₁ v₂ f g w' r gi alone h listed gc
        gr same p =
      let (object, at, ready, lists) = inventory-Offers request inventory w w₁ f w' r gi alone h in
      offer-Binds creq connection read object c f g v v₁ v₂ lists ready (same object at) listed gc
        gr p
