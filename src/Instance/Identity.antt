-- ===== src/Instance/Identity.antt =====
-- What the identifier of an instance decides.
use provider_operator_exampl.Host.{Host, done}
use provider_operator_exampl.Instance.{
  with_phase, with_conditions, instance_condition, record_cluster, reconcile,
}
use provider_operator_exampl.Api.{
  InstanceStatus, ready, ObjectKey, condition_false, ProviderInstance, Condition,
}
use provider_operator_exampl.Service.{Cluster, ProviderService}
use provider_operator_exampl.Host.Server.{Shows, key_of, SetsConditions, Server}
use provider_operator_exampl.Base.{
  ◌∙◌, answered, ap, panicked, arith, some, refused, ran, ◌≢◌, ok, ◌≡◌, Option, M,
}
use provider_operator_exampl.Api.Reasons.{backend_error}
use provider_operator_exampl.Inventory.{secret_selector}

-- Once an instance has an identifier, a reconciliation goes the same way whatever a creation of a
-- cluster would do: it makes none.
pub identified_creates_none :
    (H : Host) (S : ProviderService H)
    (create : S.Cloud → ProviderInstance → M H.World H.Err (Option Cluster)) (request : ObjectKey)
    (instance : ProviderInstance) (w w₁ : H.World)
    → H.get_instance request w ≡ ok instance w₁
    → instance.status.instance_id ≢ ""
    → reconcile H (record S { create_cluster = create }) request w ≡ reconcile H S request w
unfolding reconcile
identified_creates_none H S create request instance w w₁ g named =
    elim (ran (H.get_inventory instance.spec.inventory_ref w₁)) [
      | refused e w₂ u ↦ ground arith
      | panicked w₂ u ↦ ground arith
      | answered inventory w₂ u ↦
          elim (ran (S.create_cloud_service (secret_selector inventory) w₂)) [
            | refused e w₃ v ↦ ground arith
            | panicked w₃ v ↦ ground arith
            | answered cloud w₃ v ↦ ground arith
          ]
    ]

abbrev pub no_id_condition : Host → Condition
no_id_condition H =
    instance_condition condition_false backend_error
      (H.error_text (H.new_error "received cluster details with no ID"))

-- A cluster without an identifier: where the two status updates succeed, the method reports the
-- failure and still ends well, and the stored instance is in the phase Ready, with the identifier
-- that it had and a condition that says BackendError.
pub unidentified_ready :
    (H : Host) (V : Server H) (C : SetsConditions H) (instance x y : ProviderInstance) (c : Cluster)
    (w w₁ w₂ : H.World)
    → c.id ≡ ""
    → H.update_instance_status
        (with_conditions instance
          (H.set_status_condition w instance.status.conditions (no_id_condition H)))
        w
      ≡ ok x w₁
    → H.update_instance_status (with_phase x ready) w₁ ≡ ok y w₂
    → (object : ProviderInstance) × (record_cluster H instance (some c) w ≡ ok done w₂)
      × (V.instance_at w₂ (key_of instance.metadata) ≡ some object)
      × (object.status.phase ≡ ready)
      × (object.status.instance_id ≡ instance.status.instance_id)
      × Shows object.status.conditions (no_id_condition H)
unfolding record_cluster
unidentified_ready H V C instance x y c w w₁ w₂ blank first second =
    let reported =
      with_conditions instance
        (H.set_status_condition w instance.status.conditions (no_id_condition H)) in
    let (a, _, _, _, same, key) = V.instance_stored reported x w w₁ first in
    let (b, at, last, _, _, _) = V.instance_stored (with_phase x ready) y w₁ w₂ second in
    (
      b,
      ground arith,
      rw key at at,
      ap (λ (t : InstanceStatus). t.phase) last,
      ap (λ (t : InstanceStatus). t.instance_id) last
          ∙ ap (λ (t : InstanceStatus). t.instance_id) same,
      rw (last, same) (C.shows w instance.status.conditions (no_id_condition H)),
    )
