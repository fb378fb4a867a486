-- ===== src/Model/Objects.antt =====
-- The classes that implement the interface RuntimeObject (pkg/model/interfaces.go): their structs,
-- the factories' new instances, and the methods that read or replace the Kubernetes object.
pub mod Pointers
use janus_idp_operator.Prelude.{String, ℕ, Bool, Option, none, some, same}
use janus_idp_operator.GoError.{Outcome, ok, err, panic}
pub use janus_idp_operator.Model.Structs.{ConfigMapMount, SecretMount, ConfigMapRef, SecretRef}
use janus_idp_operator.Kube.{Workload, ConfigMap, Secret, Service, Route, KubeObject}
use janus_idp_operator.Model.Structs.{
  app_config_object, config_map_envs_object, config_map_files_object, db_secret_object,
  db_service_object, db_stateful_set_object, backstage_deployment_object, dynamic_plugins_object,
  backstage_route_object, secret_envs_object, secret_files_object, backstage_service_object,
  set_app_config, set_config_map_envs, set_config_map_files, set_db_secret, set_db_service,
  set_db_stateful_set, set_backstage_deployment, set_dynamic_plugins, set_backstage_route,
  set_secret_envs, set_secret_files, set_backstage_service, empty_app_config, empty_config_map_envs,
  empty_config_map_files, empty_db_secret, empty_db_service, empty_db_stateful_set,
  empty_backstage_deployment, empty_dynamic_plugins, empty_backstage_route, empty_secret_envs,
  empty_secret_files, empty_backstage_service,
}

abbrev pub default_mount_dir : String
default_mount_dir = "/opt/app-root/src"

-- AppConfig and ConfigMapFiles
pub data RuntimeObject : Type 0 where
  app_config : ConfigMapMount → RuntimeObject
  config_map_envs : ConfigMapRef → RuntimeObject
  config_map_files : ConfigMapMount → RuntimeObject
  db_secret : Option Secret → RuntimeObject
  db_service : Option Service → RuntimeObject
  db_stateful_set : Option Workload → RuntimeObject
  backstage_deployment : Option Workload → RuntimeObject
  dynamic_plugins : Option ConfigMap → RuntimeObject
  backstage_route : Option Route → RuntimeObject
  secret_envs : SecretRef → RuntimeObject
  secret_files : SecretMount → RuntimeObject
  backstage_service : Option Service → RuntimeObject

-- The classes, numbered in the order in which their init functions register them: Go runs those of
-- a package by file name.
unfoldable pub type_code : RuntimeObject → ℕ
type_code (app_config b) = 0
type_code (config_map_envs b) = 1
type_code (config_map_files b) = 2
type_code (db_secret b) = 3
type_code (db_service b) = 4
type_code (db_stateful_set b) = 5
type_code (backstage_deployment b) = 6
type_code (dynamic_plugins b) = 7
type_code (backstage_route b) = 8
type_code (secret_envs b) = 9
type_code (secret_files b) = 10
type_code (backstage_service b) = 11

-- reflect.TypeOf(a) == reflect.TypeOf(b)
unfoldable pub same_type : RuntimeObject → RuntimeObject → Bool
unfolding type_code
same_type a b = same (type_code a) (type_code b)

-- ObjectFactory, and newBackstageObject of each factory.
abbrev pub ObjectFactory : Type 0
ObjectFactory = RuntimeObject

abbrev pub app_config_factory : ObjectFactory
app_config_factory = app_config (record { object = none; mount_path = default_mount_dir; key = "" })

abbrev pub config_map_envs_factory : ObjectFactory
config_map_envs_factory = config_map_envs (record { object = none; key = "" })

abbrev pub config_map_files_factory : ObjectFactory
config_map_files_factory =
    config_map_files (record { object = none; mount_path = default_mount_dir; key = "" })

abbrev pub db_secret_factory : ObjectFactory
db_secret_factory = db_secret none

abbrev pub db_service_factory : ObjectFactory
db_service_factory = db_service none

abbrev pub db_stateful_set_factory : ObjectFactory
db_stateful_set_factory = db_stateful_set none

abbrev pub backstage_deployment_factory : ObjectFactory
backstage_deployment_factory = backstage_deployment none

abbrev pub dynamic_plugins_factory : ObjectFactory
dynamic_plugins_factory = dynamic_plugins none

abbrev pub backstage_route_factory : ObjectFactory
backstage_route_factory = backstage_route none

abbrev pub secret_envs_factory : ObjectFactory
secret_envs_factory = secret_envs (record { object = none; key = "" })

abbrev pub secret_files_factory : ObjectFactory
secret_files_factory =
    secret_files (record { object = none; mount_path = default_mount_dir; key = "" })

abbrev pub backstage_service_factory : ObjectFactory
backstage_service_factory = backstage_service none

-- Object() of each class
unfoldable pub object : RuntimeObject → Option KubeObject
object (app_config b) = app_config_object b
object (config_map_envs b) = config_map_envs_object b
object (config_map_files b) = config_map_files_object b
object (db_secret b) = db_secret_object b
object (db_service b) = db_service_object b
object (db_stateful_set b) = db_stateful_set_object b
object (backstage_deployment b) = backstage_deployment_object b
object (dynamic_plugins b) = dynamic_plugins_object b
object (backstage_route b) = backstage_route_object b
object (secret_envs b) = secret_envs_object b
object (secret_files b) = secret_files_object b
object (backstage_service b) = backstage_service_object b

-- EmptyObject() of each class
unfoldable pub empty_object : RuntimeObject → KubeObject
empty_object (app_config b) = empty_app_config
empty_object (config_map_envs b) = empty_config_map_envs
empty_object (config_map_files b) = empty_config_map_files
empty_object (db_secret b) = empty_db_secret
empty_object (db_service b) = empty_db_service
empty_object (db_stateful_set b) = empty_db_stateful_set
empty_object (backstage_deployment b) = empty_backstage_deployment
empty_object (dynamic_plugins b) = empty_dynamic_plugins
empty_object (backstage_route b) = empty_backstage_route
empty_object (secret_envs b) = empty_secret_envs
empty_object (secret_files b) = empty_secret_files
empty_object (backstage_service b) = empty_backstage_service

abbrev pub rebuild {ℓ} : {A : Type ℓ} → (A → RuntimeObject) → Outcome A → Outcome RuntimeObject
rebuild c (ok a) = ok (c a)
rebuild c (err e) = err e
rebuild c panic = panic

-- setObject(obj) of each class
unfoldable pub set_object : RuntimeObject → KubeObject → Outcome RuntimeObject
set_object (app_config b) k = rebuild app_config (set_app_config b k)
set_object (config_map_envs b) k = rebuild config_map_envs (set_config_map_envs b k)
set_object (config_map_files b) k = rebuild config_map_files (set_config_map_files b k)
set_object (db_secret b) k = rebuild db_secret (set_db_secret b k)
set_object (db_service b) k = rebuild db_service (set_db_service b k)
set_object (db_stateful_set b) k = rebuild db_stateful_set (set_db_stateful_set b k)
set_object (backstage_deployment b) k = rebuild backstage_deployment (set_backstage_deployment b k)
set_object (dynamic_plugins b) k = rebuild dynamic_plugins (set_dynamic_plugins b k)
set_object (backstage_route b) k = rebuild backstage_route (set_backstage_route b k)
set_object (secret_envs b) k = rebuild secret_envs (set_secret_envs b k)
set_object (secret_files b) k = rebuild secret_files (set_secret_files b k)
set_object (backstage_service b) k = rebuild backstage_service (set_backstage_service b k)
