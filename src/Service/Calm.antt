-- ===== src/Service/Calm.antt =====
-- Calls that do not panic: judgements on outcomes, and hosts and provider services all of whose
-- calls are such. `Good` is what the calls rely on in the world that they find.
use provider_operator_exampl.Base.{
  M, Outcome, ok, err, panic, proceed, Bool, true, false, if◌then◌else◌, Option, none, some, String,
  ◌≡◌, refl, ◌⊎◌,
}
use provider_operator_exampl.Host.{Host}
use provider_operator_exampl.Service.{Cluster, ProviderService}
use provider_operator_exampl.Api.{
  ObjectKey, ProviderInventory, ProviderConnection, ProviderInstance, Secret, ConfigMap,
}

module _ {W E : Type 0} (Good : W → Type 0) where
  -- A value of which `P` holds, or an error, in a good world.
  abbrev pub Calmly : {A : Type 0} → (A → Type 0) → Outcome W E A → Type 0
  Calmly P (ok a w) = P a × Good w
  Calmly P (err e w) = Good w
  Calmly P (panic w) = ⊥

  abbrev pub IsCalm : {A : Type 0} → (A → Type 0) → M W E A → Type 0
  IsCalm P m = (w : W) → Good w → Calmly P (m w)

  -- A value, in a good world.
  pub record Replied {A : Type 0} (o : Outcome W E A) : Type 0 where
    pub value : A
    pub after : W
    pub replied : o ≡ ok value after
    pub good : Good after

  abbrev pub Replies : {A : Type 0} → M W E A → Type 0
  Replies m = (w : W) → Good w → Replied (m w)

  pub reply : {A : Type 0} (a : A) (w : W) → Good w → Replied (ok a w)
  reply a w g = record { value = a; after = w; replied = refl; good = g }

  pub either :
      {A : Type 0} (Q : Outcome W E A → Type 0) (b : Bool) (x y : Outcome W E A)
      → Q x
      → Q y
      → Q (if b then x else y)
  either Q true x y p q = p
  either Q false x y p q = q

  pub proceed-holds :
      {A B : Type 0} (P : A → Type 0) (Q : Outcome W E B → Type 0) (next : A → M W E B)
      (caught : E → M W E B) (o : Outcome W E A)
      → Calmly P o
      → ((a : A) (w : W) → P a → Good w → Q (next a w))
      → ((e : E) (w : W) → Good w → Q (caught e w))
      → Q (proceed o next caught)
  proceed-holds P Q next caught (ok a w) (p, g) n c = n a w p g
  proceed-holds P Q next caught (err e w) g n c = c e w g
  proceed-holds P Q next caught (panic w) g n c = absurd g

abbrev pub Any : {A : Type 0} → A → Type 0
Any _ = Unit

-- A cluster whose details can be read.
abbrev pub IsUsable : Option Cluster → Type 0
IsUsable none = ⊥
IsUsable (some c) =
    ((t : String) × (c.created_at ≡ some t)) × ((t : String) × (c.updated_at ≡ some t))

pub record CalmHost (H : Host) (Good : H.World → Type 0) : Type 0 where
  pub get_inventory : (k : ObjectKey) → IsCalm Good Any (H.get_inventory k)
  pub get_connection : (k : ObjectKey) → IsCalm Good Any (H.get_connection k)
  pub get_instance : (k : ObjectKey) → IsCalm Good Any (H.get_instance k)
  pub get_secret : (k : ObjectKey) → IsCalm Good Any (H.get_secret k)
  pub update_inventory_status :
      (x : ProviderInventory) → IsCalm Good Any (H.update_inventory_status x)
  pub update_connection_status :
      (x : ProviderConnection) → IsCalm Good Any (H.update_connection_status x)
  pub update_instance_status : (x : ProviderInstance) → IsCalm Good Any (H.update_instance_status x)
  pub create_or_update_secret :
      (x : Secret) (f : Secret → H.Err ⊎ Secret) → IsCalm Good Any (H.create_or_update_secret x f)
  pub create_or_update_config_map :
      (x : ConfigMap) (f : ConfigMap → H.Err ⊎ ConfigMap)
      → IsCalm Good Any (H.create_or_update_config_map x f)

pub record CalmService (H : Host) (S : ProviderService H) (Good : H.World → Type 0) : Type 0 where
  pub create_cloud_service : (k : ObjectKey) → IsCalm Good Any (S.create_cloud_service k)
  pub discover_clusters : (c : S.Cloud) → IsCalm Good Any (S.discover_clusters c)
  pub create_cluster :
      (c : S.Cloud) (x : ProviderInstance) → IsCalm Good IsUsable (S.create_cluster c x)
  pub get_cluster : (c : S.Cloud) (id : String) → IsCalm Good IsUsable (S.get_cluster c id)
