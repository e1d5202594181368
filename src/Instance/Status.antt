-- ===== src/Instance/Status.antt =====
-- What the writes of an instance's status leave stored.
use provider_operator_exampl.Host.{Host}
use provider_operator_exampl.Host.Server.{find_condition, Shows, key_of, SetsConditions, Server}
use provider_operator_exampl.Instance.{with_conditions, instance_condition, update_status}
use provider_operator_exampl.Api.{InstanceStatus, ConditionStatus, ProviderInstance}
use provider_operator_exampl.Api.Reasons.{
  connection_condition_ready_type, instance_condition_ready_type, ConditionReason,
}
use provider_operator_exampl.Base.{
  refl, ne_of_test, panicked, refused, ap, answered, arith, ran, true, false, err, ok, some, ◌≡◌,
  String,
}

module _ (H : Host) (V : Server H) (C : SetsConditions H) where
  open H use {World, Err}

  -- The stored instance has the status of `instance`, but for the conditions: the one that a
  -- connection has reads so, and the one that an instance should have is as it was.
  pub record Reported (instance : ProviderInstance) (status : ConditionStatus)
      (reason : ConditionReason) (message : String) (w : World) : Type 0 where
    pub object : ProviderInstance
    pub at_key : V.instance_at w (key_of instance.metadata) ≡ some object
    pub same_phase : object.status.phase ≡ instance.status.phase
    pub same_id : object.status.instance_id ≡ instance.status.instance_id
    pub same_info : object.status.instance_info ≡ instance.status.instance_info
    pub condition : Shows object.status.conditions (instance_condition status reason message)
    pub unreported :
        find_condition instance_condition_ready_type object.status.conditions
        ≡ find_condition instance_condition_ready_type instance.status.conditions

  -- The update of the status that sets this condition was refused with the error.
  abbrev pub Refused :
      ProviderInstance → ConditionStatus → ConditionReason → String → Err → World → World → Type 0
  Refused instance status reason message e w w' =
      H.update_instance_status
        (with_conditions instance (
          H.set_status_condition w instance.status.conditions
            (instance_condition status reason message)))
        w
      ≡ err e w'

  -- The update of the status was stored, or another writer came first.
  pub data Written (instance : ProviderInstance) (status : ConditionStatus)
      (reason : ConditionReason) (message : String) (w w' : World) : Type 0 where
    reported :
        Reported instance status reason message w' → Written instance status reason message w w'
    conflict :
        (e : Err)
        → Refused instance status reason message e w w'
        → H.is_conflict e ≡ true
        → Written instance status reason message w w'

  -- The status update of an instance that returns no error met a conflict, or has stored the
  -- phase, the identifier and the details of the instance, and the given status, reason and
  -- message under the type of a connection's condition; the condition of the type of an instance
  -- is as it was.
  pub instance_update_status-Written :
      (instance x : ProviderInstance) (status : ConditionStatus) (reason : ConditionReason)
      (message : String) (w w' : World)
      → update_status H instance status reason message w ≡ ok x w'
      → Written instance status reason message w w'
  unfolding update_status
  instance_update_status-Written instance x status reason message w w' h =
      let condition = instance_condition status reason message in
      let conditions = H.set_status_condition w instance.status.conditions condition in
      let changed = with_conditions instance conditions in
      elim (ran (H.update_instance_status changed w)) [
        | answered x' w₁ e ↦
            let (y, at, same, m, s, k) = V.instance_stored changed x' w w' (ground arith) in
            reported (record {
              object = y;
              at_key = at;
              same_phase = ap (λ (t : InstanceStatus). t.phase) same;
              same_id = ap (λ (t : InstanceStatus). t.instance_id) same;
              same_info = ap (λ (t : InstanceStatus). t.instance_info) same;
              condition = rw same (C.shows w instance.status.conditions condition);
              unreported = rw same (
                  C.keeps w instance.status.conditions condition instance_condition_ready_type (
                    ne_of_test instance_condition_ready_type connection_condition_ready_type refl));
            })
        | refused x' w₁ e ↦ conflict x' (ground arith) (ground arith)
        | panicked w₁ e ↦ absurd (ground arith)
      ]

  pub update_status-Refused :
      (instance : ProviderInstance) (status : ConditionStatus) (reason : ConditionReason)
      (message : String) (e : Err) (w w' : World)
      → update_status H instance status reason message w ≡ err e w'
      → Refused instance status reason message e w w' × (H.is_conflict e ≡ false)
  unfolding update_status
  update_status-Refused instance status reason message e w w' h = (ground arith, ground arith)
