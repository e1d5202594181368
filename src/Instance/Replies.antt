-- ===== src/Instance/Replies.antt =====
-- A reconciliation of an instance where no call panics.
use provider_operator_exampl.Base.{return, handle, none, ◌==◌, String, some, Option, ok, err}
use provider_operator_exampl.Host.{done, retried, Host}
use provider_operator_exampl.Service.{ProviderService, Cluster}
use provider_operator_exampl.Service.Calm.{
  CalmHost, CalmService, Calmly, IsCalm, IsUsable, Replied, Replies, reply, either, proceed-holds,
  Any,
}
use provider_operator_exampl.Service.Info.{populate_instance_info}
use provider_operator_exampl.Instance.{
  with_status, with_phase, update_status, update_cluster_details, abandon, settle, record_cluster,
  acquire, reconcile,
}
use provider_operator_exampl.Api.{
  unknown, pending, creating, condition_true, ready, condition_false, InstanceStatus,
  ConditionStatus, ObjectKey, ProviderInstance,
}
use provider_operator_exampl.Api.Reasons.{
  instance_ready, inventory_not_found, ConditionReason, backend_error,
}

-- `Fine` is what is known of the identifiers that are written, and of those that come back.
module _ (H : Host) (Good : H.World → Type 0) (Fine : String → Type 0) where
  open H use {World, Err}

  abbrev pub HasFineId : ProviderInstance → Type 0
  HasFineId instance = Fine instance.status.instance_id

  -- A status update of a fine identifier is calm, and answers with a fine one.
  abbrev pub UpdatesCalmly : Type 0
  UpdatesCalmly =
      (x : ProviderInstance) → HasFineId x → IsCalm Good HasFineId (H.update_instance_status x)

  -- A cluster whose details can be read and whose identifier is fine.
  abbrev pub IsFineCluster : Option Cluster → Type 0
  IsFineCluster none = ⊥
  IsFineCluster (some c) = IsUsable (some c) × Fine c.id

  module _ (U : UpdatesCalmly) where
    update_status-IsCalm :
        (instance : ProviderInstance) (status : ConditionStatus) (reason : ConditionReason)
        (message : String)
        → HasFineId instance
        → IsCalm Good HasFineId (update_status H instance status reason message)
    unfolding update_status
    update_status-IsCalm instance status reason message fine w good =
        proceed-holds Good HasFineId (Calmly Good HasFineId) _ _ _ (U _ fine w good)
          (λ _ w₁ p g. (p, g))
          (λ e w₁ g.
            either Good (Calmly Good HasFineId) (H.is_conflict e) (ok _ w₁) (err e w₁) (fine, g) g)

    pub abandon-Replies :
        (instance : ProviderInstance) (reason : ConditionReason) (e : Err)
        → HasFineId instance
        → Replies Good (abandon H instance reason e)
    unfolding abandon
    abandon-Replies instance reason e fine w good =
        proceed-holds Good HasFineId (Replied Good) _ _ _
          (update_status-IsCalm instance condition_false reason (H.error_text e) fine w good)
          (λ _ w₁ _ g. reply Good _ w₁ g) (λ _ w₁ g. reply Good _ w₁ g)

    -- The report of a failed last update.
    patched-Replies :
        (instance : ProviderInstance) (e : Err)
        → HasFineId instance
        → Replies Good (
            handle
              (update_status H
                (with_phase instance ready)
                condition_true
                instance_ready
                (H.error_text e))
              (λ x. return (retried x))
              (λ _. return done))
    patched-Replies instance e fine w good =
        proceed-holds Good HasFineId (Replied Good) _ _ _
          (update_status-IsCalm (with_phase instance ready) condition_true instance_ready
            (H.error_text e) fine w good)
          (λ _ w₁ _ g. reply Good _ w₁ g) (λ _ w₁ g. reply Good _ w₁ g)

    settle-Replies :
        (instance : ProviderInstance) → HasFineId instance → Replies Good (settle H instance)
    unfolding settle
    settle-Replies instance fine w good =
        proceed-holds Good HasFineId (Replied Good) _ _ _
          (U (with_phase instance ready) fine w good) (λ _ w₁ _ g. reply Good _ w₁ g)
          (λ e w₁ g.
            either Good (Replied Good) _ _ _ (reply Good _ w₁ g)
              (patched-Replies instance e fine w₁ g))

    update_cluster_details-IsCalm :
        (cluster : Option Cluster) (status : InstanceStatus)
        → IsFineCluster cluster
        → IsCalm Good (λ s. Fine s.instance_id) (update_cluster_details H cluster status)
    unfolding update_cluster_details populate_instance_info
    update_cluster_details-IsCalm none status u w good = absurd u
    update_cluster_details-IsCalm (some c) status (((t, p), (v, q)), fine) w good =
        either Good (Calmly Good (λ s. Fine s.instance_id)) (c.id == "") _ _ good
          (rw p (rw q (fine, good)))

    pub record_cluster-Replies :
        (instance : ProviderInstance) (cluster : Option Cluster)
        → HasFineId instance
        → IsFineCluster cluster
        → Replies Good (record_cluster H instance cluster)
    unfolding record_cluster
    record_cluster-Replies instance cluster fine u w good =
        proceed-holds Good (λ s. Fine s.instance_id) (Replied Good) _ _ _
          (update_cluster_details-IsCalm cluster instance.status u w good)
          (λ status w₁ p. settle-Replies (with_status instance status) p w₁)
          (λ e w₁ g₁.
            proceed-holds Good HasFineId (Replied Good) _ _ _
              (update_status-IsCalm instance condition_false backend_error (H.error_text e) fine w₁
                g₁)
              (λ x w₂ p. settle-Replies x p w₂) (λ _ w₂ g₂. reply Good _ w₂ g₂))

module _ (H : Host) (Good : H.World → Type 0) (K : CalmHost H Good) where
  updates : UpdatesCalmly H Good (λ _. Unit)
  updates x _ = K.update_instance_status x

  fine_cluster :
      (cluster : Option Cluster) → IsUsable cluster → IsFineCluster H Good (λ _. Unit) cluster
  fine_cluster none u = u
  fine_cluster (some c) u = (u, tt)

  module _ (S : ProviderService H) (T : CalmService H S Good) where
    acquire-Replies :
        (instance : ProviderInstance) (cloud : S.Cloud) → Replies Good (acquire H S instance cloud)
    acquire-Replies instance cloud w good =
        either Good (Replied Good) _ _ _
          (proceed-holds Good IsUsable (Replied Good) _ _ _ (T.create_cluster cloud _ w good)
            (λ cluster w₁ u.
              record_cluster-Replies H Good _ updates (with_phase instance creating) cluster tt
                (fine_cluster cluster u) w₁)
            (λ e.
              abandon-Replies H Good _ updates (with_phase instance creating) backend_error e tt))
          (proceed-holds Good IsUsable (Replied Good) _ _ _ (T.get_cluster cloud _ w good)
            (λ cluster w₁ u.
              record_cluster-Replies H Good _ updates instance cluster tt (fine_cluster cluster u)
                w₁)
            (λ e. abandon-Replies H Good _ updates instance backend_error e tt))

    -- Where no call of the host and of the provider panics in a good world, each leaves a good
    -- world, and the provider answers with clusters that have their times, every reconciliation of
    -- an instance in a good world returns, in a good world.
    pub instance_reconcile-Replies : (request : ObjectKey) → Replies Good (reconcile H S request)
    unfolding reconcile
    instance_reconcile-Replies request w good =
        proceed-holds Good Any (Replied Good) _ _ _ (K.get_instance request w good)
          (λ instance w₁ _ g₁.
            proceed-holds Good Any (Replied Good) _ _ _ (K.get_inventory _ w₁ g₁)
              (λ inventory w₂ _ g₂.
                proceed-holds Good Any (Replied Good) _ _ _ (T.create_cloud_service _ w₂ g₂)
                  (λ cloud w₃ _. acquire-Replies (with_phase instance pending) cloud w₃)
                  (λ e.
                    abandon-Replies H Good _ updates (with_phase instance pending) backend_error e
                      tt))
              (λ e w₂ g₂.
                either Good (Replied Good) _ _ _
                  (abandon-Replies H Good _ updates (with_phase instance unknown)
                    inventory_not_found e tt w₂ g₂)
                  (reply Good _ w₂ g₂)))
          (λ e w₁ g₁. either Good (Replied Good) _ _ _ (reply Good _ w₁ g₁) (reply Good _ w₁ g₁))
