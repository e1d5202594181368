-- ===== src/Instance/Laws.antt =====
-- A reconciliation of an instance as a whole.
use provider_operator_exampl.Host.{retried, failed, done, Reply, Host}
use provider_operator_exampl.Host.Server.{SetsConditions, Server}
use provider_operator_exampl.Service.{Cluster, ProviderService}
use provider_operator_exampl.Api.{
  ProviderInventory, unknown, condition_false, creating, pending, InstancePhase, ObjectKey,
  ProviderInstance,
}
use provider_operator_exampl.Instance.{update_status, acquire, with_phase, reconcile, abandon}
use provider_operator_exampl.Api.Reasons.{backend_error, inventory_not_found, ConditionReason}
use provider_operator_exampl.Base.{
  inr, inl, Bool-cases, refused, answered, false, ◌≢◌, arith, String-dec, panicked, true, ran, err,
  ok, ◌≡◌, Option,
}
use provider_operator_exampl.Instance.Status.{
  Refused, update_status-Refused, instance_update_status-Written, Written,
}
use provider_operator_exampl.Inventory.{secret_selector}
use provider_operator_exampl.Instance.Ends.{Recorded, record_cluster-Recorded}

module _ (H : Host) (V : Server H) (C : SetsConditions H) (S : ProviderService H) where
  open H use {World, Err}

  -- The cloud service that is made from the secret of the inventory of the instance.
  pub record Served (instance : ProviderInstance) (w : World) (cloud : S.Cloud) (w' : World)
      : Type 0 where
    pub inventory : ProviderInventory
    pub between : World
    pub read : H.get_inventory instance.spec.inventory_ref w ≡ ok inventory between
    pub made : S.create_cloud_service (secret_selector inventory) between ≡ ok cloud w'

  -- The step that failed before there was a cluster: the reason that is reported for it, and the
  -- phase in which it is reported.
  pub data Cause (instance : ProviderInstance) (w : World)
      : ConditionReason → InstancePhase → Err → World → Type 0 where
    no_inventory :
        (e : Err) (w₁ : World)
        → H.get_inventory instance.spec.inventory_ref w ≡ err e w₁
        → H.is_not_found e ≡ true
        → Cause instance w inventory_not_found unknown e w₁
    no_cloud :
        (inventory : ProviderInventory) (e : Err) (w₁ w₂ : World)
        → H.get_inventory instance.spec.inventory_ref w ≡ ok inventory w₁
        → S.create_cloud_service (secret_selector inventory) w₁ ≡ err e w₂
        → Cause instance w backend_error pending e w₂
    not_created :
        (cloud : S.Cloud) (e : Err) (w₁ w₂ : World)
        → Served instance w cloud w₁
        → instance.status.instance_id ≡ ""
        → S.create_cluster cloud (with_phase instance creating) w₁ ≡ err e w₂
        → Cause instance w backend_error creating e w₂
    not_fetched :
        (cloud : S.Cloud) (e : Err) (w₁ w₂ : World)
        → Served instance w cloud w₁
        → instance.status.instance_id ≢ ""
        → S.get_cluster cloud instance.status.instance_id w₁ ≡ err e w₂
        → Cause instance w backend_error pending e w₂

  -- Where the cluster came from, and the phase in which the instance is while it is recorded.
  pub data Acquired (instance : ProviderInstance) (w : World)
      : InstancePhase → Option Cluster → World → Type 0 where
    created :
        (cloud : S.Cloud) (cluster : Option Cluster) (w₁ w₂ : World)
        → Served instance w cloud w₁
        → instance.status.instance_id ≡ ""
        → S.create_cluster cloud (with_phase instance creating) w₁ ≡ ok cluster w₂
        → Acquired instance w creating cluster w₂
    fetched :
        (cloud : S.Cloud) (cluster : Option Cluster) (w₁ w₂ : World)
        → Served instance w cloud w₁
        → instance.status.instance_id ≢ ""
        → S.get_cluster cloud instance.status.instance_id w₁ ≡ ok cluster w₂
        → Acquired instance w pending cluster w₂

  pub data Ends (request : ObjectKey) (w : World) (r : Reply Err) (w' : World) : Type 0 where
    absent :
        (e : Err)
        → H.get_instance request w ≡ err e w'
        → H.is_not_found e ≡ true
        → r ≡ done
        → Ends request w r w'
    unread :
        (e : Err)
        → H.get_instance request w ≡ err e w'
        → H.is_not_found e ≡ false
        → r ≡ failed e
        → Ends request w r w'
    unread_inventory :
        (instance : ProviderInstance) (e : Err) (w₁ : World)
        → H.get_instance request w ≡ ok instance w₁
        → H.get_inventory instance.spec.inventory_ref w₁ ≡ err e w'
        → H.is_not_found e ≡ false
        → r ≡ failed e
        → Ends request w r w'
    abandoned :
        (instance : ProviderInstance) (reason : ConditionReason) (phase : InstancePhase) (e : Err)
        (w₁ w₂ : World)
        → H.get_instance request w ≡ ok instance w₁
        → Cause instance w₁ reason phase e w₂
        → Written H V C (with_phase instance phase) condition_false reason (H.error_text e) w₂ w'
        → r ≡ failed e
        → Ends request w r w'
    unreported :
        (instance : ProviderInstance) (reason : ConditionReason) (phase : InstancePhase) (e x : Err)
        (w₁ w₂ : World)
        → H.get_instance request w ≡ ok instance w₁
        → Cause instance w₁ reason phase e w₂
        → Refused H V C (with_phase instance phase) condition_false reason (H.error_text e) x w₂ w'
        → H.is_conflict x ≡ false
        → r ≡ retried x
        → Ends request w r w'
    acquired :
        (instance : ProviderInstance) (phase : InstancePhase) (cluster : Option Cluster)
        (w₁ w₂ : World)
        → H.get_instance request w ≡ ok instance w₁
        → Acquired instance w₁ phase cluster w₂
        → Recorded H V C (with_phase instance phase) cluster w₂ r w'
        → Ends request w r w'

  abandon-Ends :
      (request : ObjectKey) (instance : ProviderInstance) (reason : ConditionReason)
      (phase : InstancePhase) (e : Err) (w w₁ w₂ w' : World) (r : Reply Err)
      → H.get_instance request w ≡ ok instance w₁
      → Cause instance w₁ reason phase e w₂
      → abandon H (with_phase instance phase) reason e w₂ ≡ ok r w'
      → Ends request w r w'
  unfolding abandon
  abandon-Ends request instance reason phase e w w₁ w₂ w' r g c h =
      let x = with_phase instance phase in
      elim (ran (update_status H x condition_false reason (H.error_text e) w₂)) [
        | answered y w₃ u ↦
            abandoned instance reason phase e w₁ w₂ g c
              (instance_update_status-Written H V C x y condition_false reason (H.error_text e) w₂
                w' (ground arith))
              (ground arith)
        | refused y w₃ u ↦
            let (a, n) =
              update_status-Refused H V C x condition_false reason (H.error_text e) y w₂ w'
                (ground arith) in
            unreported instance reason phase e y w₁ w₂ g c a n (ground arith)
        | panicked w₃ u ↦ absurd (ground arith)
      ]

  acquire-Ends :
      (request : ObjectKey) (instance : ProviderInstance) (cloud : S.Cloud) (w w₁ w₂ w' : World)
      (r : Reply Err)
      → H.get_instance request w ≡ ok instance w₁
      → Served instance w₁ cloud w₂
      → acquire H S (with_phase instance pending) cloud w₂ ≡ ok r w'
      → Ends request w r w'
  acquire-Ends request instance cloud w w₁ w₂ w' r g s h =
      elim (String-dec instance.status.instance_id "") [
        | yes blank ↦ elim (ran (S.create_cluster cloud (with_phase instance creating) w₂)) [
          | answered cluster w₃ u ↦
              acquired instance creating cluster w₁ w₃ g (created cloud cluster w₂ w₃ s blank u) (
                record_cluster-Recorded H V C (with_phase instance creating) cluster w₃ w' r
                  (ground arith))
          | refused e w₃ u ↦
              abandon-Ends request instance backend_error creating e w w₁ w₃ w' r g
                (not_created cloud e w₂ w₃ s blank u) (ground arith)
          | panicked w₃ u ↦ absurd (ground arith)
        ]
        | no named ↦ elim (ran (S.get_cluster cloud instance.status.instance_id w₂)) [
          | answered cluster w₃ u ↦
              acquired instance pending cluster w₁ w₃ g (fetched cloud cluster w₂ w₃ s named u) (
                record_cluster-Recorded H V C (with_phase instance pending) cluster w₃ w' r
                  (ground arith))
          | refused e w₃ u ↦
              abandon-Ends request instance backend_error pending e w w₁ w₃ w' r g
                (not_fetched cloud e w₂ w₃ s named u) (ground arith)
          | panicked w₃ u ↦ absurd (ground arith)
        ]
      ]

  -- A reconciliation of an instance that returns has ended in one of these ways: the instance is
  -- gone; it or its inventory could not be read; a step failed, and its error is returned and
  -- written with the reason and in the phase of that step (or the write met a conflict); the
  -- write of that error was refused, which asks for another round; or there is a cluster, made if
  -- the instance had no identifier and else fetched. A cluster with an identifier goes into the
  -- last update, with its identifier and its details; for one without, the failure is written or
  -- meets a conflict, and the instance goes into the last update as that left it, or the write is
  -- refused, which asks for another round. The last update, in the phase Ready, is stored; or
  -- meets a conflict, which asks for another round; or fails, and its error is then written as
  -- the message of a ready condition, or that write meets a conflict, both of which end the
  -- reconciliation without another round, or is refused, which asks for one.
  pub instance_reconcile-Ends :
      (request : ObjectKey) (w w' : World) (r : Reply Err)
      → reconcile H S request w ≡ ok r w'
      → Ends request w r w'
  unfolding reconcile
  instance_reconcile-Ends request w w' r h = elim (ran (H.get_instance request w)) [
    | panicked w₁ u ↦ absurd (ground arith)
    | refused e w₁ u ↦ elim (Bool-cases (H.is_not_found e)) [
      | inl n ↦ absent e (ground arith) n (ground arith)
      | inr n ↦ unread e (ground arith) n (ground arith)
    ]
    | answered instance w₁ u ↦ elim (ran (H.get_inventory instance.spec.inventory_ref w₁)) [
      | panicked w₂ v ↦ absurd (ground arith)
      | refused e w₂ v ↦ elim (Bool-cases (H.is_not_found e)) [
        | inl n ↦
            abandon-Ends request instance inventory_not_found unknown e w w₁ w₂ w' r u
              (no_inventory e w₂ v n) (ground arith)
        | inr n ↦ unread_inventory instance e w₁ u (ground arith) n (ground arith)
      ]
      | answered inventory w₂ v ↦
          elim (ran (S.create_cloud_service (secret_selector inventory) w₂)) [
            | panicked w₃ x ↦ absurd (ground arith)
            | refused e w₃ x ↦
                abandon-Ends request instance backend_error pending e w w₁ w₃ w' r u
                  (no_cloud inventory e w₂ w₃ v x) (ground arith)
            | answered cloud w₃ x ↦
                acquire-Ends request instance cloud w w₁ w₃ w' r u
                  (record { inventory = inventory; between = w₂; read = v; made = x })
                  (ground arith)
          ]
    ]
  ]
