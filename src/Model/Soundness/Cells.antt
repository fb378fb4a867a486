-- ===== src/Model/Soundness/Cells.antt =====
-- What a cell of a class holds.
use janus_idp_operator.Prelude.{true, Option, none, some, ◌≡◌, refl, Option-cases, inl, inr}
use janus_idp_operator.Kube.{Secret, Service, Workload}
use janus_idp_operator.Model.Objects.{
  RuntimeObject, type_code, app_config, config_map_envs, config_map_files, db_secret, db_service,
  db_stateful_set, backstage_deployment, dynamic_plugins, backstage_route, secret_envs,
  secret_files, backstage_service,
}
use janus_idp_operator.Model.Soundness.{is_sound, is_live, is_typed, is_complete, has_any}
use janus_idp_operator.GoError.{ok, Safe}
use janus_idp_operator.Model.State.{Ref, BackstageModel, load}

pub secret_of_typed :
    (x : Option RuntimeObject)
    → is_typed 3 x ≡ true
    → (s : Secret) × (x ≡ some (db_secret (some s)))
unfolding is_typed type_code
secret_of_typed none e = cc
secret_of_typed (some (app_config b)) e = cc
secret_of_typed (some (config_map_envs b)) e = cc
secret_of_typed (some (config_map_files b)) e = cc
secret_of_typed (some (db_secret none)) e = cc
secret_of_typed (some (db_secret (some s))) e = (s, refl)
secret_of_typed (some (db_service b)) e = cc
secret_of_typed (some (db_stateful_set b)) e = cc
secret_of_typed (some (backstage_deployment b)) e = cc
secret_of_typed (some (dynamic_plugins b)) e = cc
secret_of_typed (some (backstage_route b)) e = cc
secret_of_typed (some (secret_envs b)) e = cc
secret_of_typed (some (secret_files b)) e = cc
secret_of_typed (some (backstage_service b)) e = cc

pub service_of_typed :
    (x : Option RuntimeObject)
    → is_typed 11 x ≡ true
    → (o : Service) × (x ≡ some (backstage_service (some o)))
unfolding is_typed type_code
service_of_typed none e = cc
service_of_typed (some (app_config b)) e = cc
service_of_typed (some (config_map_envs b)) e = cc
service_of_typed (some (config_map_files b)) e = cc
service_of_typed (some (db_secret b)) e = cc
service_of_typed (some (db_service b)) e = cc
service_of_typed (some (db_stateful_set b)) e = cc
service_of_typed (some (backstage_deployment b)) e = cc
service_of_typed (some (dynamic_plugins b)) e = cc
service_of_typed (some (backstage_route b)) e = cc
service_of_typed (some (secret_envs b)) e = cc
service_of_typed (some (secret_files b)) e = cc
service_of_typed (some (backstage_service none)) e = cc
service_of_typed (some (backstage_service (some o))) e = (o, refl)

pub db_service_of_typed :
    (x : Option RuntimeObject)
    → is_typed 4 x ≡ true
    → (o : Service) × (x ≡ some (db_service (some o))) × (has_any o.ports ≡ true)
unfolding is_typed type_code
db_service_of_typed none e = cc
db_service_of_typed (some (app_config b)) e = cc
db_service_of_typed (some (config_map_envs b)) e = cc
db_service_of_typed (some (config_map_files b)) e = cc
db_service_of_typed (some (db_secret b)) e = cc
db_service_of_typed (some (db_service none)) e = cc
db_service_of_typed (some (db_service (some o))) e = (o, refl, e)
db_service_of_typed (some (db_stateful_set b)) e = cc
db_service_of_typed (some (backstage_deployment b)) e = cc
db_service_of_typed (some (dynamic_plugins b)) e = cc
db_service_of_typed (some (backstage_route b)) e = cc
db_service_of_typed (some (secret_envs b)) e = cc
db_service_of_typed (some (secret_files b)) e = cc
db_service_of_typed (some (backstage_service b)) e = cc

pub deployment_of_typed :
    (x : Option RuntimeObject)
    → is_typed 6 x ≡ true
    → (w : Workload) × (x ≡ some (backstage_deployment (some w))) × (is_complete w ≡ true)
unfolding is_typed type_code
deployment_of_typed none e = cc
deployment_of_typed (some (app_config b)) e = cc
deployment_of_typed (some (config_map_envs b)) e = cc
deployment_of_typed (some (config_map_files b)) e = cc
deployment_of_typed (some (db_secret b)) e = cc
deployment_of_typed (some (db_service b)) e = cc
deployment_of_typed (some (db_stateful_set b)) e = cc
deployment_of_typed (some (backstage_deployment none)) e = cc
deployment_of_typed (some (backstage_deployment (some w))) e = (w, refl, e)
deployment_of_typed (some (dynamic_plugins b)) e = cc
deployment_of_typed (some (backstage_route b)) e = cc
deployment_of_typed (some (secret_envs b)) e = cc
deployment_of_typed (some (secret_files b)) e = cc
deployment_of_typed (some (backstage_service b)) e = cc

pub load-some :
    (m : BackstageModel) (r : Ref) (o : RuntimeObject) → m.heap r ≡ some o → load m r ≡ ok o
unfolding load
load-some m r o e = rw (e, load) refl

-- A pointer into the slice can be followed.
pub load-live :
    (m : BackstageModel) (r : Ref)
    → is_live (m.heap r) ≡ true
    → Safe (λ o. (m.heap r ≡ some o) × (is_sound o ≡ true)) (load m r)
load-live m r e = elim (Option-cases (m.heap r)) [
  | inl n ↦ cc (e, n)
  | inr (o, n) ↦ rw (load-some m r o n) (n, cc (e, n))
]
