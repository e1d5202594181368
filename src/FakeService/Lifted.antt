-- ===== src/FakeService/Lifted.antt =====
-- What the server promises, for a host beside the provider cloud.
use provider_operator_exampl.Host.{Host}
use provider_operator_exampl.Host.Server.{Server, SetsConditions}
use provider_operator_exampl.FakeService.Extend.{lift, with_clusters}
use provider_operator_exampl.Base.{arith, ok, refl, ◌≡◌, M}
use provider_operator_exampl.Api.{ObjectKey}
use provider_operator_exampl.FakeClusters.{FakeClusters}

lift-ok :
    {W E A : Type 0} (m : M W E A) (w w' : W × FakeClusters) (a : A)
    → lift m w ≡ ok a w'
    → m w.0 ≡ ok a w'.0
unfolding lift
lift-ok m w w' a h = ground arith

pub extend_conditions : (H : Host) → SetsConditions H → SetsConditions (with_clusters H)
extend_conditions H C = record { shows = λ w. C.shows w.0; keeps = λ w. C.keeps w.0 }

pub extend_server : (H : Host) → Server H → Server (with_clusters H)
extend_server H V = record {
  inventory_at = λ w. V.inventory_at w.0;
  connection_at = λ w. V.connection_at w.0;
  instance_at = λ w. V.instance_at w.0;
  secret_at = λ w. V.secret_at w.0;
  config_map_at = λ w. V.config_map_at w.0;
  inventory_stored = λ x x' w w' h.
      V.inventory_stored x x' w.0 w'.0 (lift-ok (H.update_inventory_status x) w w' x' h);
  connection_stored = λ x x' w w' h.
      V.connection_stored x x' w.0 w'.0 (lift-ok (H.update_connection_status x) w w' x' h);
  instance_stored = λ x x' w w' h.
      V.instance_stored x x' w.0 w'.0 (lift-ok (H.update_instance_status x) w w' x' h);
  secret_stored = λ x x' f w w' h.
      V.secret_stored x x' f w.0 w'.0 (lift-ok (H.create_or_update_secret x f) w w' x' h);
  config_map_stored = λ x x' f w w' h.
      V.config_map_stored x x' f w.0 w'.0 (lift-ok (H.create_or_update_config_map x f) w w' x' h);
  config_map_keeps_secrets = λ x x' f w w' k h.
      V.config_map_keeps_secrets x x' f w.0 w'.0 k
        (lift-ok (H.create_or_update_config_map x f) w w' x' h);
  status_keeps_secrets = λ x x' w w' k h.
      V.status_keeps_secrets x x' w.0 w'.0 k (lift-ok (H.update_connection_status x) w w' x' h);
  status_keeps_config_maps = λ x x' w w' k h.
      V.status_keeps_config_maps x x' w.0 w'.0 k (lift-ok (H.update_connection_status x) w w' x' h);
}

pub extend_server_lem :
    (H : Host) (V : Server H) (w : H.World × FakeClusters) (k : ObjectKey)
    → (extend_server H V).inventory_at w k ≡ V.inventory_at w.0 k
unfolding extend_server
extend_server_lem H V w k = refl
