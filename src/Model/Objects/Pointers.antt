-- ===== src/Model/Objects/Pointers.antt =====
-- Object, setObject and EmptyObject of the classes fit together.
use janus_idp_operator.Prelude.{some, ◌≡◌, ◌≢◌, refl}
use janus_idp_operator.GoError.{Outcome, ok, err, panic}
use janus_idp_operator.Kube.{
  KubeObject, config_map, secret, service, deployment, stateful_set, route, kind_of,
}
use janus_idp_operator.Model.Objects.{
  RuntimeObject, type_code, object, empty_object, set_object, app_config, config_map_envs,
  config_map_files, db_secret, db_service, db_stateful_set, backstage_deployment, dynamic_plugins,
  backstage_route, secret_envs, secret_files, backstage_service,
}

-- The object was taken in: Object returns it, and the class is what it was.
pub record Holds (o : RuntimeObject) (k : KubeObject) (o' : RuntimeObject) : Type 0 where
  pub object_is : object o' ≡ some k
  pub class : type_code o' ≡ type_code o

-- What setObject may do: take in an object of the kind of the class's empty object, or panic on one
-- of another kind.
abbrev pub TakesIn : RuntimeObject → KubeObject → Outcome RuntimeObject → Type 0
TakesIn o k (ok o') = (kind_of k ≡ kind_of (empty_object o)) × Holds o k o'
TakesIn o k (err e) = ⊥
TakesIn o k panic = kind_of k ≢ kind_of (empty_object o)

-- Of each class, setObject takes in the objects of the kind that EmptyObject makes, after which
-- Object returns what was given and the class is the same; and it panics on every other kind.
pub set_object-TakesIn : (o : RuntimeObject) (k : KubeObject) → TakesIn o k (set_object o k)
unfolding set_object object empty_object type_code
set_object-TakesIn (app_config b) (config_map x) = (refl, record { object_is = refl; class = refl })
set_object-TakesIn (config_map_envs b) (config_map x) =
    (refl, record { object_is = refl; class = refl })
set_object-TakesIn (config_map_files b) (config_map x) =
    (refl, record { object_is = refl; class = refl })
set_object-TakesIn (db_secret b) (secret x) = (refl, record { object_is = refl; class = refl })
set_object-TakesIn (db_service b) (service x) = (refl, record { object_is = refl; class = refl })
set_object-TakesIn (db_stateful_set b) (stateful_set x) =
    (refl, record { object_is = refl; class = refl })
set_object-TakesIn (backstage_deployment b) (deployment x) =
    (refl, record { object_is = refl; class = refl })
set_object-TakesIn (dynamic_plugins b) (config_map x) =
    (refl, record { object_is = refl; class = refl })
set_object-TakesIn (backstage_route b) (route x) = (refl, record { object_is = refl; class = refl })
set_object-TakesIn (secret_envs b) (secret x) = (refl, record { object_is = refl; class = refl })
set_object-TakesIn (secret_files b) (secret x) = (refl, record { object_is = refl; class = refl })
set_object-TakesIn (backstage_service b) (service x) =
    (refl, record { object_is = refl; class = refl })
set_object-TakesIn _ _ = λ e. cc e
