-- ===== src/FakeService/Extend.antt =====
-- A host together with the provider cloud that lives in the process. No call of the host touches
-- the cloud.
use provider_operator_exampl.Host.{Host}
use provider_operator_exampl.FakeClusters.{FakeClusters}
use provider_operator_exampl.Base.{panic, err, ok, M}

unfoldable pub lift : {W E A : Type 0} → M W E A → M (W × FakeClusters) E A
lift m (w, f) = elim (m w) [
  | ok a w' ↦ ok a (w', f)
  | err e w' ↦ err e (w', f)
  | panic w' ↦ panic (w', f)
]

abbrev pub with_clusters : Host → Host
with_clusters H = record {
  World = H.World × FakeClusters;
  Err = H.Err;
  is_not_found = H.is_not_found;
  is_conflict = H.is_conflict;
  error_text = H.error_text;
  new_error = H.new_error;
  get_inventory = λ k. lift (H.get_inventory k);
  get_connection = λ k. lift (H.get_connection k);
  get_instance = λ k. lift (H.get_instance k);
  get_secret = λ k. lift (H.get_secret k);
  update_inventory_status = λ x. lift (H.update_inventory_status x);
  update_connection_status = λ x. lift (H.update_connection_status x);
  update_instance_status = λ x. lift (H.update_instance_status x);
  create_or_update_secret = λ x f. lift (H.create_or_update_secret x f);
  create_or_update_config_map = λ x f. lift (H.create_or_update_config_map x f);
  set_controller_reference = H.set_controller_reference;
  set_status_condition = λ w. H.set_status_condition w.0;
  type_label_key = H.type_label_key;
  type_label_value = H.type_label_value;
  provisioning_name_text = H.provisioning_name_text;
}
