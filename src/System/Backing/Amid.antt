-- ===== src/System/Backing/Amid.antt =====
-- Reconciliations amid other steps: before each call that a controller makes, and before the send of
-- CreateCluster, the clients and goroutines of the cloud and the users may have moved.
use provider_operator_exampl.System.Backing.{Sightings, Move}
use provider_operator_exampl.System.Jobs.{Job, inventory_job, connection_job, instance_job}
use provider_operator_exampl.FakeService.{
  create_cloud_service, discover_clusters, create_cluster, get_cluster, send,
}
use provider_operator_exampl.Inventory
use provider_operator_exampl.Connection
use provider_operator_exampl.Instance
use provider_operator_exampl.Host.{Reply, Host}
use provider_operator_exampl.Base.{[], ◌∷◌, List, Option, none, some, panic, M, err, ok, Outcome}
use provider_operator_exampl.Host.Server.{Server}
use provider_operator_exampl.FakeService.Extend.{with_clusters}
use provider_operator_exampl.Api.{ProviderInstance}
use provider_operator_exampl.FakeClusters.{FakeClusters}
use provider_operator_exampl.Service.{Cluster, ProviderService}

module _ {S T E A : Type 0} where
  abbrev pub carry : Outcome S E A → T → Outcome (S × T) E A
  carry (ok a s) t = ok a (s, t)
  carry (err e s) t = err e (s, t)
  carry (panic s) t = panic (s, t)

module _ (H : Host) (V : Server H) (Seen : Sightings H) (Good : H.World → Type 0) where
  -- A state, and the moves that come before the next calls, one for each and a
  -- second for CreateCluster.
  abbrev pub Course : Type 0
  Course = (H.World × FakeClusters) × List (Move H V Seen Good)

  abbrev pub amid : {A : Type 0} → M (H.World × FakeClusters) H.Err A → M Course H.Err A
  amid m (s, []) = carry (m s) []
  amid m (s, v ∷ vs) = carry (m (v.go s)) vs

  abbrev pub host_amid : Host
  host_amid =
      let C = with_clusters H in
      record {
        World = Course;
        Err = H.Err;
        is_not_found = H.is_not_found;
        is_conflict = H.is_conflict;
        error_text = H.error_text;
        new_error = H.new_error;
        get_inventory = λ k. amid (C.get_inventory k);
        get_connection = λ k. amid (C.get_connection k);
        get_instance = λ k. amid (C.get_instance k);
        get_secret = λ k. amid (C.get_secret k);
        update_inventory_status = λ x. amid (C.update_inventory_status x);
        update_connection_status = λ x. amid (C.update_connection_status x);
        update_instance_status = λ x. amid (C.update_instance_status x);
        create_or_update_secret = λ x f. amid (C.create_or_update_secret x f);
        create_or_update_config_map = λ x f. amid (C.create_or_update_config_map x f);
        set_controller_reference = H.set_controller_reference;
        set_status_condition = λ w. H.set_status_condition w.0.0;
        type_label_key = H.type_label_key;
        type_label_value = H.type_label_value;
        provisioning_name_text = H.provisioning_name_text;
      }

  -- The send that CreateCluster ends with.
  abbrev pub send_created : Option Cluster → M (H.World × FakeClusters) H.Err (Option Cluster)
  send_created none s = ok none s
  send_created (some c) (w, f) = ok (some c) (w, send c f)

  -- A creation that succeeds has only sent its cluster: it sends after the move instead.
  abbrev pub sent_after :
      Outcome (H.World × FakeClusters) H.Err (Option Cluster)
      → H.World × FakeClusters
      → List (Move H V Seen Good)
      → Outcome Course H.Err (Option Cluster)
  sent_after (ok c _) s vs = carry (send_created c s) vs
  sent_after (err e s) _ vs = carry (err e s) vs
  sent_after (panic s) _ vs = carry (panic s) vs

  -- CreateCluster, with a move before it is judged and a move before its cluster is sent.
  abbrev pub create_amid : ProviderInstance → M Course H.Err (Option Cluster)
  create_amid x (s, []) = amid (create_cluster H tt x) (s, [])
  create_amid x (s, v ∷ []) = amid (create_cluster H tt x) (s, v ∷ [])
  create_amid x (s, v ∷ (u ∷ vs)) = sent_after (create_cluster H tt x (v.go s)) (u.go (v.go s)) vs

  abbrev pub service_amid : ProviderService host_amid
  service_amid = record {
    Cloud = Unit {0};
    create_cloud_service = λ k. amid (create_cloud_service H k);
    discover_clusters = λ c. amid (discover_clusters H c);
    create_cluster = λ _. create_amid;
    get_cluster = λ c id. amid (get_cluster H c id);
  }

  abbrev pub perform_amid : Job → M Course H.Err (Reply H.Err)
  perform_amid (inventory_job k) = Inventory.reconcile host_amid service_amid k
  perform_amid (connection_job k) = Connection.reconcile host_amid service_amid k
  perform_amid (instance_job k) = Instance.reconcile host_amid service_amid k
