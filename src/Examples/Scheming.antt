-- ===== src/Examples/Scheming.antt =====
-- The init functions with schemes that are lists of what was added.
use mathlib.Core.List.{append_assoc}
use provider_operator_exampl.Base.{
  String, List, [], ◌∷◌, ◌++◌, map, All, ap, ◌⊎◌, inl, inr, ◌≡◌, refl, ok, arith,
}
use provider_operator_exampl.Start.{
  ApiType, Toolkit, connection_type, connection_list_type, instance_type, instance_list_type,
  inventory_type, inventory_list_type,
}
use provider_operator_exampl.Start.Known.{Catalogue, init-Known}
use provider_operator_exampl.Start.Scheme.{init}

-- An entry of a scheme: the types of client-go or of dbaas-operator, or one of this repository.
data Entry : Type 0 where
  client_go dbaas : Entry
  api : String → String → ApiType → Entry

abbrev Among : {A : Type 0} → A → List A → Type 0
Among x [] = ⊥
Among x (y ∷ ys) = (x ≡ y) ⊎ Among x ys

Among-append : {A : Type 0} (x : A) (xs ys : List A) → Among x xs ⊎ Among x ys → Among x (xs ++ ys)
Among-append x [] ys (inl h) = absurd h
Among-append x [] ys (inr h) = h
Among-append x (z ∷ xs) ys (inl (inl e)) = inl e
Among-append x (z ∷ xs) ys (inl (inr h)) = inr (Among-append x xs ys (inl h))
Among-append x (z ∷ xs) ys (inr h) = inr (Among-append x xs ys (inr h))

Among-map : {A B : Type 0} (f : A → B) (x : A) (xs : List A) → Among x xs → Among (f x) (map f xs)
Among-map f x [] h = h
Among-map f x (y ∷ ys) (inl e) = inl (ap f e)
Among-map f x (y ∷ ys) (inr h) = inr (Among-map f x ys h)

All-Among : {A : Type 0} (front xs : List A) → All (λ x. Among x (front ++ xs)) xs
All-Among front [] = tt
All-Among front (x ∷ xs) = (
  Among-append x front (x ∷ xs) (inr (inl refl)),
  rw (append_assoc front (x ∷ []) xs) at (All-Among (front ++ (x ∷ [])) xs),
)

abbrev Builder : Type 0
Builder = String × String × List ApiType

abbrev lister : Toolkit
lister = record {
  World = Unit;
  Err = String;
  Scheme = List Entry;
  SchemeBuilder = Builder;
  Config = Unit;
  Client = Unit;
  Clientset = Unit;
  Manager = Unit;
  new_error = λ text. text;
  new_scheme = [];
  add_client_go_to_scheme = λ scheme. inr (scheme ++ (client_go ∷ []));
  add_dbaas_to_scheme = λ scheme. inr (scheme ++ (dbaas ∷ []));
  new_builder = λ group version. (group, version, []);
  register = λ builder types. (builder.0, builder.1, builder.2 ++ types);
  add_builder_to_scheme = λ builder scheme. inr (scheme ++ map (api builder.0 builder.1) builder.2);
  get_config_or_die = λ w. ok tt w;
  new_manager = λ config scheme options w. ok tt w;
  get_config = λ mgr. tt;
  get_client = λ mgr. tt;
  get_scheme = λ mgr. [];
  new_for_config = λ config w. ok tt w;
  complete = λ mgr controller reconciler w. ok tt w;
  add_healthz_check = λ mgr name w. ok tt w;
  add_readyz_check = λ mgr name w. ok tt w;
  start = λ mgr w. ok tt w;
}

module _ (s s' more : List Entry)
    (e : ◌≡◌ {A = String ⊎ List Entry} (inr (s ++ more)) (inr s')) where
  added : s ++ more ≡ s'
  added = ground arith

  Among-kept : (x : Entry) → Among x s → Among x s'
  Among-kept x h = rw added at (Among-append x s more (inl h))

  Among-added : (x : Entry) → Among x more → Among x s'
  Among-added x h = rw added at (Among-append x s more (inr h))

abbrev catalogue : Catalogue lister
catalogue = record {
  knows = λ s g v t. Among (api g v t) s;
  knows_deployments = λ s. Among client_go s;
  group_of = λ b. b.0;
  version_of = λ b. b.1;
  holds = λ b t. Among t b.2;
  new_group = λ g v. refl;
  new_version = λ g v. refl;
  register_group = λ b types. refl;
  register_version = λ b types. refl;
  registers = λ b types. All-Among b.2 types;
  register_keeps = λ b types t h. Among-append t b.2 types (inl h);
  client_go_knows = λ s s' e. Among-added s s' (client_go ∷ []) e client_go (inl refl);
  dbaas_keeps = λ s s' e. Among-kept s s' (dbaas ∷ []) e client_go;
  builder_keeps = λ b s s' e. Among-kept s s' (map (api b.0 b.1) b.2) e client_go;
  builder_adds = λ b s s' t e h.
      Among-added s s' (map (api b.0 b.1) b.2) e (api b.0 b.1 t) (Among-map (api b.0 b.1) t b.2 h);
}

abbrev listed : List Entry
listed =
    client_go
    ∷ dbaas
    ∷ map (api "dbaas.redhat.com" "v1beta1") (
        connection_type ∷ connection_list_type ∷ instance_type ∷ instance_list_type ∷ inventory_type
        ∷ inventory_list_type ∷ [])

init-lister : init lister ≡ inr listed
unfolding init
init-lister = refl

init-Known_example :
    ((t : ApiType) → Among (api "dbaas.redhat.com" "v1beta1" t) listed) × Among client_go listed
init-Known_example = init-Known lister catalogue listed init-lister
