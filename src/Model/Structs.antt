-- ===== src/Model/Structs.antt =====
-- The structs of the classes of runtime objects (pkg/model), and the methods of each that read or
-- replace its Kubernetes object. A class with no other field is the pointer alone.
use janus_idp_operator.Prelude.{String, Option, none, some}
use janus_idp_operator.GoError.{Outcome, ok, panic}
use janus_idp_operator.Kube.{
  Workload, ConfigMap, Secret, Service, Route, KubeObject, config_map, secret, service, deployment,
  stateful_set, route, zero_config_map, zero_secret, zero_service, zero_workload, zero_route,
}

pub record ConfigMapMount : Type 0 where
  pub object : Option ConfigMap
  pub mount_path : String
  pub key : String

pub record SecretMount : Type 0 where
  pub object : Option Secret
  pub mount_path : String
  pub key : String

pub record ConfigMapRef : Type 0 where
  pub object : Option ConfigMap
  pub key : String

pub record SecretRef : Type 0 where
  pub object : Option Secret
  pub key : String

-- Object(); `none` is the nil pointer.
abbrev pub app_config_object : ConfigMapMount → Option KubeObject
app_config_object b = elim b.object [ none ↦ none | some o ↦ some (config_map o) ]

abbrev pub config_map_envs_object : ConfigMapRef → Option KubeObject
config_map_envs_object b = elim b.object [ none ↦ none | some o ↦ some (config_map o) ]

abbrev pub config_map_files_object : ConfigMapMount → Option KubeObject
config_map_files_object b = elim b.object [ none ↦ none | some o ↦ some (config_map o) ]

abbrev pub db_secret_object : Option Secret → Option KubeObject
db_secret_object b = elim b [ none ↦ none | some o ↦ some (secret o) ]

abbrev pub db_service_object : Option Service → Option KubeObject
db_service_object b = elim b [ none ↦ none | some o ↦ some (service o) ]

abbrev pub db_stateful_set_object : Option Workload → Option KubeObject
db_stateful_set_object b = elim b [ none ↦ none | some o ↦ some (stateful_set o) ]

abbrev pub backstage_deployment_object : Option Workload → Option KubeObject
backstage_deployment_object b = elim b [ none ↦ none | some o ↦ some (deployment o) ]

abbrev pub dynamic_plugins_object : Option ConfigMap → Option KubeObject
dynamic_plugins_object b = elim b [ none ↦ none | some o ↦ some (config_map o) ]

abbrev pub backstage_route_object : Option Route → Option KubeObject
backstage_route_object b = elim b [ none ↦ none | some o ↦ some (route o) ]

abbrev pub secret_envs_object : SecretRef → Option KubeObject
secret_envs_object b = elim b.object [ none ↦ none | some o ↦ some (secret o) ]

abbrev pub secret_files_object : SecretMount → Option KubeObject
secret_files_object b = elim b.object [ none ↦ none | some o ↦ some (secret o) ]

abbrev pub backstage_service_object : Option Service → Option KubeObject
backstage_service_object b = elim b [ none ↦ none | some o ↦ some (service o) ]

-- setObject(obj), for an object that is not nil. A failed type assertion is a panic.
abbrev pub set_app_config : ConfigMapMount → KubeObject → Outcome ConfigMapMount
set_app_config b (config_map o) = ok (record b { object = some o })
set_app_config b _ = panic

abbrev pub set_config_map_envs : ConfigMapRef → KubeObject → Outcome ConfigMapRef
set_config_map_envs b (config_map o) = ok (record b { object = some o })
set_config_map_envs b _ = panic

abbrev pub set_config_map_files : ConfigMapMount → KubeObject → Outcome ConfigMapMount
set_config_map_files b (config_map o) = ok (record b { object = some o })
set_config_map_files b _ = panic

abbrev pub set_db_secret : Option Secret → KubeObject → Outcome (Option Secret)
set_db_secret b (secret o) = ok (some o)
set_db_secret b _ = panic

abbrev pub set_db_service : Option Service → KubeObject → Outcome (Option Service)
set_db_service b (service o) = ok (some o)
set_db_service b _ = panic

abbrev pub set_db_stateful_set : Option Workload → KubeObject → Outcome (Option Workload)
set_db_stateful_set b (stateful_set o) = ok (some o)
set_db_stateful_set b _ = panic

abbrev pub set_backstage_deployment : Option Workload → KubeObject → Outcome (Option Workload)
set_backstage_deployment b (deployment o) = ok (some o)
set_backstage_deployment b _ = panic

abbrev pub set_dynamic_plugins : Option ConfigMap → KubeObject → Outcome (Option ConfigMap)
set_dynamic_plugins b (config_map o) = ok (some o)
set_dynamic_plugins b _ = panic

abbrev pub set_backstage_route : Option Route → KubeObject → Outcome (Option Route)
set_backstage_route b (route o) = ok (some o)
set_backstage_route b _ = panic

abbrev pub set_secret_envs : SecretRef → KubeObject → Outcome SecretRef
set_secret_envs b (secret o) = ok (record b { object = some o })
set_secret_envs b _ = panic

abbrev pub set_secret_files : SecretMount → KubeObject → Outcome SecretMount
set_secret_files b (secret o) = ok (record b { object = some o })
set_secret_files b _ = panic

abbrev pub set_backstage_service : Option Service → KubeObject → Outcome (Option Service)
set_backstage_service b (service o) = ok (some o)
set_backstage_service b _ = panic

-- EmptyObject()
abbrev pub empty_app_config : KubeObject
empty_app_config = config_map zero_config_map

abbrev pub empty_config_map_envs : KubeObject
empty_config_map_envs = config_map zero_config_map

abbrev pub empty_config_map_files : KubeObject
empty_config_map_files = config_map zero_config_map

abbrev pub empty_db_secret : KubeObject
empty_db_secret = secret zero_secret

abbrev pub empty_db_service : KubeObject
empty_db_service = service zero_service

abbrev pub empty_db_stateful_set : KubeObject
empty_db_stateful_set = stateful_set zero_workload

abbrev pub empty_backstage_deployment : KubeObject
empty_backstage_deployment = deployment zero_workload

abbrev pub empty_dynamic_plugins : KubeObject
empty_dynamic_plugins = config_map zero_config_map

abbrev pub empty_backstage_route : KubeObject
empty_backstage_route = route zero_route

abbrev pub empty_secret_envs : KubeObject
empty_secret_envs = secret zero_secret

abbrev pub empty_secret_files : KubeObject
empty_secret_files = secret zero_secret

abbrev pub empty_backstage_service : KubeObject
empty_backstage_service = service zero_service
