-- ===== src/Instance.antt =====
-- ProviderInstanceReconciler, controllers/dbaas/providerinstance_controller.go. Log lines are left
-- out.
pub mod Status
pub mod Ends
pub mod Laws
pub mod Replies
pub mod Identity
use provider_operator_exampl.Base.{
  String, ◌==◌, if◌then◌else◌, List, Option, none, some, true, M, ok, err, panic, handle, return,
}
use provider_operator_exampl.Api.{
  ObjectKey, ConditionStatus, condition_true, condition_false, Condition, ProviderInstance,
  InstanceStatus, InstancePhase, unknown, pending, creating, ready,
}
use provider_operator_exampl.Api.Reasons.{
  ConditionReason, inventory_not_found, backend_error, instance_ready, reason_text,
  connection_condition_ready_type,
}
use provider_operator_exampl.Host.{Host, Reply, done, failed, retried, requeued}
use provider_operator_exampl.Service.{Cluster, ProviderService}
use provider_operator_exampl.Service.Info.{populate_instance_info}
use provider_operator_exampl.Inventory.{secret_selector}

-- The condition that updateStatus builds; its type is that of a connection.
abbrev pub instance_condition : ConditionStatus → ConditionReason → String → Condition
instance_condition status reason message = record {
  type = connection_condition_ready_type;
  status = status;
  reason = reason_text reason;
  message = message;
  last_transition_time = "";
}

abbrev pub with_conditions : ProviderInstance → List Condition → ProviderInstance
with_conditions instance conditions = record instance {
  status = record instance.status { conditions = conditions };
}

-- `instance.Status.Phase = phase`
abbrev pub with_phase : ProviderInstance → InstancePhase → ProviderInstance
with_phase instance phase = record instance { status = record instance.status { phase = phase } }

abbrev pub with_status : ProviderInstance → InstanceStatus → ProviderInstance
with_status instance status = record instance { status = status }

module _ (H : Host) where
  open H use {World, Err}

  -- The instance comes back as the method leaves it behind the pointer: as the server answered, or
  -- with the new condition where the update met a conflict.
  unfoldable pub update_status :
      ProviderInstance → ConditionStatus → ConditionReason → String → M World Err ProviderInstance
  update_status instance status reason message w =
      let condition = instance_condition status reason message in
      let conditions = H.set_status_condition w instance.status.conditions condition in
      let changed = with_conditions instance conditions in
      handle (H.update_instance_status changed)
        (λ e w'. if H.is_conflict e then ok changed w' else err e w') (λ answer w'. ok answer w') w

  -- A nil cluster, and a cluster with an identifier and a nil time, panic.
  unfoldable pub update_cluster_details :
      Option Cluster → InstanceStatus → M World Err InstanceStatus
  update_cluster_details cluster status w = elim cluster [
    | none ↦ panic w
    | some c ↦
        if c.id == ""
        then err (H.new_error "received cluster details with no ID") w
        else elim (populate_instance_info c) [
          | none ↦ panic w
          | some info ↦ ok (record status { instance_id = c.id; instance_info = info }) w
        ]
  ]

  -- How every failed step ends.
  unfoldable pub abandon : ProviderInstance → ConditionReason → Err → M World Err (Reply Err)
  unfolding update_status
  abandon instance reason e =
      handle (update_status instance condition_false reason (H.error_text e))
        (λ x. return (retried x)) (λ _. return (failed e))

  -- The last step: the phase is set, and the status is written.
  unfoldable pub settle : ProviderInstance → M World Err (Reply Err)
  unfolding update_status
  settle instance =
      let ready_instance = with_phase instance ready in
      handle (H.update_instance_status ready_instance)
        (λ e w.
          if H.is_conflict e
          then ok requeued w
          else handle (update_status ready_instance condition_true instance_ready (H.error_text e))
              (λ x. return (retried x)) (λ _. return done) w)
        (λ _. return done)

  -- From the cluster on. A cluster without an identifier is reported, and the method goes on.
  unfoldable pub record_cluster : ProviderInstance → Option Cluster → M World Err (Reply Err)
  unfolding update_cluster_details update_status settle
  record_cluster instance cluster =
      handle (update_cluster_details cluster instance.status)
        (λ e.
          handle (update_status instance condition_false backend_error (H.error_text e))
            (λ x. return (retried x)) settle)
        (λ status. settle (with_status instance status))

module _ (H : Host) (S : ProviderService H) where
  open H use {World, Err}

  -- The cluster is created if the instance has no identifier yet, and fetched otherwise.
  abbrev pub acquire : ProviderInstance → S.Cloud → M World Err (Reply Err)
  acquire instance cloud w =
      if instance.status.instance_id == ""
      then handle (S.create_cluster cloud (with_phase instance creating))
          (abandon H (with_phase instance creating) backend_error)
          (record_cluster H (with_phase instance creating)) w
      else handle (S.get_cluster cloud instance.status.instance_id)
          (abandon H instance backend_error) (record_cluster H instance) w

  unfoldable pub reconcile : ObjectKey → M World Err (Reply Err)
  reconcile request =
      handle (H.get_instance request)
        (λ e w. if H.is_not_found e then ok done w else ok (failed e) w)
        λ instance.
          handle (H.get_inventory instance.spec.inventory_ref)
            (λ e w.
              if H.is_not_found e
              then abandon H (with_phase instance unknown) inventory_not_found e w
              else ok (failed e) w)
            λ inventory.
              handle (S.create_cloud_service (secret_selector inventory))
                (abandon H (with_phase instance pending) backend_error)
                (acquire (with_phase instance pending))
