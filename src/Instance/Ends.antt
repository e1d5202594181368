-- ===== src/Instance/Ends.antt =====
-- What a reconciliation of an instance leaves behind, on every way through it.
use provider_operator_exampl.Host.{retried, requeued, done, Reply, Host}
use provider_operator_exampl.Host.Server.{key_of, SetsConditions, Server}
use provider_operator_exampl.Instance.{
  with_status, update_status, with_phase, settle, record_cluster,
}
use provider_operator_exampl.Api.{condition_true, condition_false, ready, ProviderInstance}
use provider_operator_exampl.Base.{
  refl, none, Option-cases, inr, inl, false, Bool-cases, refused, panicked, true, String-dec, err,
  ◌≢◌, answered, arith, String, ran, some, ok, ◌≡◌, Option,
}
use provider_operator_exampl.Service.{Cluster}
use provider_operator_exampl.Base.Dict.{Dict}
use provider_operator_exampl.Service.Info.{populate_instance_info}
use provider_operator_exampl.Api.Reasons.{instance_ready, backend_error}
use provider_operator_exampl.Instance.Status.{
  Refused, instance_update_status-Written, Written, update_status-Refused,
}

module _ (H : Host) (V : Server H) (C : SetsConditions H) where
  open H use {World, Err}

  -- The stored instance has the whole status of `instance`.
  pub record Stored (instance : ProviderInstance) (w : World) : Type 0 where
    pub object : ProviderInstance
    pub at_key : V.instance_at w (key_of instance.metadata) ≡ some object
    pub same_status : object.status ≡ instance.status

  -- How the last step ends, for the instance that it marks ready: the status is stored; or a
  -- conflict asks for another round; or the update failed and its error was written as a message
  -- of success, or could not be written.
  pub data Settled (instance : ProviderInstance) (w : World) (r : Reply Err) (w' : World)
      : Type 0 where
    saved : Stored (with_phase instance ready) w' → r ≡ done → Settled instance w r w'
    raced :
        (e : Err)
        → H.update_instance_status (with_phase instance ready) w ≡ err e w'
        → H.is_conflict e ≡ true
        → r ≡ requeued
        → Settled instance w r w'
    patched :
        (e : Err) (w₁ : World)
        → H.update_instance_status (with_phase instance ready) w ≡ err e w₁
        → H.is_conflict e ≡ false
        → Written H V C
            (with_phase instance ready)
            condition_true
            instance_ready
            (H.error_text e)
            w₁
            w'
        → r ≡ done
        → Settled instance w r w'
    unpatched :
        (e x : Err) (w₁ : World)
        → H.update_instance_status (with_phase instance ready) w ≡ err e w₁
        → H.is_conflict e ≡ false
        → Refused H V C
            (with_phase instance ready)
            condition_true
            instance_ready
            (H.error_text e)
            x
            w₁
            w'
        → H.is_conflict x ≡ false
        → r ≡ retried x
        → Settled instance w r w'

  settle-Settled :
      (instance : ProviderInstance) (w w' : World) (r : Reply Err)
      → settle H instance w ≡ ok r w'
      → Settled instance w r w'
  unfolding settle
  settle-Settled instance w w' r h =
      let x = with_phase instance ready in
      elim (ran (H.update_instance_status x w)) [
        | answered x' w₁ u ↦
            let (y, at, same, _, _, _) = V.instance_stored x x' w w' (ground arith) in
            saved (record { object = y; at_key = at; same_status = same }) (ground arith)
        | panicked w₁ u ↦ absurd (ground arith)
        | refused e w₁ u ↦ elim (Bool-cases (H.is_conflict e)) [
          | inl c ↦ raced e (ground arith) c (ground arith)
          | inr c ↦
              elim (ran (update_status H x condition_true instance_ready (H.error_text e) w₁)) [
                | answered x' w₂ v ↦
                    patched e w₁ u c
                      (instance_update_status-Written H V C x x' condition_true instance_ready
                        (H.error_text e) w₁ w' (ground arith))
                      (ground arith)
                | refused x' w₂ v ↦
                    let (z, n) =
                      update_status-Refused H V C x condition_true instance_ready (H.error_text e)
                        x' w₁ w' (ground arith) in
                    unpatched e x' w₁ u c z n (ground arith)
                | panicked w₂ v ↦ absurd (ground arith)
              ]
        ]
      ]

  -- The instance that goes into the last step: with the identifier and the details of the cluster,
  -- or, for a cluster without an identifier, the instance as the report of that left it.
  pub data Recorded (instance : ProviderInstance) (cluster : Option Cluster) (w : World)
      (r : Reply Err) (w' : World) : Type 0 where
    known :
        (c : Cluster) (info : Dict String)
        → cluster ≡ some c
        → c.id ≢ ""
        → populate_instance_info c ≡ some info
        → Settled
            (with_status instance
              (record instance.status { instance_id = c.id; instance_info = info }))
            w
            r
            w'
        → Recorded instance cluster w r w'
    unidentified :
        (c : Cluster) (x : ProviderInstance) (w₁ : World)
        → cluster ≡ some c
        → c.id ≡ ""
        → update_status H instance condition_false backend_error
            (H.error_text (H.new_error "received cluster details with no ID"))
            w
          ≡ ok x w₁
        → Settled x w₁ r w'
        → Recorded instance cluster w r w'
    unwritten :
        (c : Cluster) (x : Err)
        → cluster ≡ some c
        → c.id ≡ ""
        → Refused H V C instance condition_false backend_error
            (H.error_text (H.new_error "received cluster details with no ID"))
            x
            w
            w'
        → H.is_conflict x ≡ false
        → r ≡ retried x
        → Recorded instance cluster w r w'

  pub record_cluster-Recorded :
      (instance : ProviderInstance) (cluster : Option Cluster) (w w' : World) (r : Reply Err)
      → record_cluster H instance cluster w ≡ ok r w'
      → Recorded instance cluster w r w'
  unfolding record_cluster
  record_cluster-Recorded instance none w w' r h = absurd (ground arith)
  record_cluster-Recorded instance (some c) w w' r h = elim (String-dec c.id "") [
    | yes blank ↦
        let e = H.new_error "received cluster details with no ID" in
        elim (ran (update_status H instance condition_false backend_error (H.error_text e) w)) [
          | answered x w₁ u ↦
              unidentified c x w₁ refl blank u (settle-Settled x w₁ w' r (ground arith))
          | refused x w₁ u ↦
              let (z, n) =
                update_status-Refused H V C instance condition_false backend_error (H.error_text e)
                  x w w' (ground arith) in
              unwritten c x refl blank z n (ground arith)
          | panicked w₁ u ↦ absurd (ground arith)
        ]
    | no named ↦ elim (Option-cases (populate_instance_info c)) [
      | inl p ↦ absurd (ground arith)
      | inr (info, p) ↦ known c info refl named p (settle-Settled _ w w' r (ground arith))
    ]
  ]
