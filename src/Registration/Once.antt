-- ===== src/Registration/Once.antt =====
-- The provider's registration, as the API server shows it.
use provider_operator_exampl.Host.{Host, done}
use provider_operator_exampl.Registration.{
  provider_resource_name, DBaaSProvider, Registrar, Operator, reconcile,
}
use provider_operator_exampl.Base.{arith, true, ok, ◌≡◌, Bool}
use provider_operator_exampl.Api.{ObjectKey}
use provider_operator_exampl.Registration.Laws.{
  present, absent, Finish, registration_reconcile-Finish,
}

-- What the API server promises about the registration: after a read that succeeds it
-- is there, and a creation that succeeds stores it.
pub record Registry (H : Host) (R : Registrar H.World H.Err) : Type 0 where
  pub is_registered : H.World → Bool
  pub shown :
      (w w' : H.World)
      → R.get_provider provider_resource_name w ≡ ok tt w'
      → is_registered w' ≡ true
  pub created :
      (cr : DBaaSProvider) (w w' : H.World)
      → cr.metadata.name ≡ provider_resource_name
      → R.create_provider cr w ≡ ok tt w'
      → is_registered w' ≡ true

module _ (H : Host) (R : Registrar H.World H.Err) (G : Registry H R) where
  open H use {World, Err}

  registered_of :
      (operator : Operator) (request : ObjectKey) (w w₁ w' : World)
      → R.get_deployment request w ≡ ok tt w₁
      → Finish H R operator request w w'
      → G.is_registered w' ≡ true
  registered_of operator request w w₁ w' d (absent e u n) = absurd (ground arith)
  registered_of operator request w w₁ w' d (present w₂ u) = G.shown w₂ w' u
  registered_of operator request w w₁ w' d
        (Finish.created e kinds role roles cr w₂ w₃ w₄ w₅ a b c f n l named owned made) =
      G.created cr w₅ w' named made

  -- A reconciliation that ends well, with the deployment there, leaves the provider registered.
  pub reconcile_registers :
      (operator : Operator) (request : ObjectKey) (w w₁ w' : World)
      → R.get_deployment request w ≡ ok tt w₁
      → reconcile H R operator request w ≡ ok done w'
      → G.is_registered w' ≡ true
  reconcile_registers operator request w w₁ w' d h =
      registered_of operator request w w₁ w' d
        (registration_reconcile-Finish H R operator request w w' h)
