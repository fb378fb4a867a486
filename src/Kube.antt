-- ===== src/Kube.antt =====
-- The Kubernetes objects that the operator writes, with the fields that its code reads or writes.
-- A pointer or a map that may be nil is an `Option`.
use janus_idp_operator.Prelude.{String, Bool, ℕ, ℤ, Option, none, List, []}
use janus_idp_operator.StringMap.{StringMap}

pub record ObjectMeta : Type 0 where
  pub name : String
  pub namespace : String
  pub labels : Option (StringMap String)
  pub annotations : Option (StringMap String)
  pub resource_version : String
  pub owner_references : List String

pub record KeySelector : Type 0 where
  pub name : String
  pub key : String

pub record EnvVarSource : Type 0 where
  pub config_map_key_ref : Option KeySelector
  pub secret_key_ref : Option KeySelector

pub record EnvVar : Type 0 where
  pub name : String
  pub value : String
  pub value_from : Option EnvVarSource

-- Each reference is a LocalObjectReference, which holds a name.
pub record EnvFromSource : Type 0 where
  pub config_map_ref : Option String
  pub secret_ref : Option String

pub record VolumeMount : Type 0 where
  pub name : String
  pub mount_path : String
  pub sub_path : String
  pub read_only : Bool

pub record Container : Type 0 where
  pub name : String
  pub image : String
  pub working_dir : String
  pub args : List String
  pub env : List EnvVar
  pub env_from : List EnvFromSource
  pub volume_mounts : List VolumeMount

pub record ObjectVolumeSource : Type 0 where
  pub object_name : String
  pub default_mode : Option ℕ
  pub is_optional : Option Bool

pub record VolumeSource : Type 0 where
  pub config_map_source : Option ObjectVolumeSource
  pub secret_source : Option ObjectVolumeSource

pub record Volume : Type 0 where
  pub name : String
  pub source : VolumeSource

pub record PodSpec : Type 0 where
  pub volumes : List Volume
  pub init_containers : List Container
  pub containers : List Container
  pub ephemeral_containers : List Container
  pub image_pull_secrets : List String

pub record PodTemplate : Type 0 where
  pub labels : Option (StringMap String)
  pub spec : PodSpec

-- An apps/v1 Deployment or StatefulSet. `selector` is the pointer to the LabelSelector, and its
-- content is `matchLabels`.
pub record Workload : Type 0 where
  pub meta : ObjectMeta
  pub replicas : Option ℤ
  pub selector : Option (Option (StringMap String))
  pub template : PodTemplate

pub record ConfigMap : Type 0 where
  pub meta : ObjectMeta
  pub content : Option (StringMap String)

pub record Secret : Type 0 where
  pub meta : ObjectMeta
  pub string_data : Option (StringMap String)

-- `ports` holds the port number of each ServicePort.
pub record Service : Type 0 where
  pub meta : ObjectMeta
  pub selector : Option (StringMap String)
  pub ports : List ℤ

pub record TlsConfig : Type 0 where
  pub termination : String
  pub insecure_policy : String
  pub certificate : String
  pub key : String
  pub ca_certificate : String
  pub external_certificate : Option String

pub record Route : Type 0 where
  pub meta : ObjectMeta
  pub host : String
  pub subdomain : String
  pub to_name : String
  pub tls : Option TlsConfig

pub data KubeObject : Type 0 where
  config_map : ConfigMap → KubeObject
  secret : Secret → KubeObject
  service : Service → KubeObject
  deployment : Workload → KubeObject
  stateful_set : Workload → KubeObject
  route : Route → KubeObject

pub data Kind : Type 0 where
  config_map_kind secret_kind service_kind deployment_kind stateful_set_kind route_kind : Kind

abbrev pub kind_of : KubeObject → Kind
kind_of (config_map o) = config_map_kind
kind_of (secret o) = secret_kind
kind_of (service o) = service_kind
kind_of (deployment o) = deployment_kind
kind_of (stateful_set o) = stateful_set_kind
kind_of (route o) = route_kind

-- The accessors of metav1.Object, which every kind has.
abbrev pub meta_of : KubeObject → ObjectMeta
meta_of (config_map o) = o.meta
meta_of (secret o) = o.meta
meta_of (service o) = o.meta
meta_of (deployment o) = o.meta
meta_of (stateful_set o) = o.meta
meta_of (route o) = o.meta

abbrev pub set_meta : ObjectMeta → KubeObject → KubeObject
set_meta m (config_map o) = config_map (record o { meta = m })
set_meta m (secret o) = secret (record o { meta = m })
set_meta m (service o) = service (record o { meta = m })
set_meta m (deployment o) = deployment (record o { meta = m })
set_meta m (stateful_set o) = stateful_set (record o { meta = m })
set_meta m (route o) = route (record o { meta = m })

-- Go's zero values.
abbrev pub zero_meta : ObjectMeta
zero_meta = record {
  name = "";
  namespace = "";
  labels = none;
  annotations = none;
  resource_version = "";
  owner_references = [];
}

abbrev pub zero_config_map : ConfigMap
zero_config_map = record { meta = zero_meta; content = none }

abbrev pub zero_secret : Secret
zero_secret = record { meta = zero_meta; string_data = none }

abbrev pub zero_service : Service
zero_service = record { meta = zero_meta; selector = none; ports = [] }

abbrev pub zero_pod_spec : PodSpec
zero_pod_spec = record {
  volumes = [];
  init_containers = [];
  containers = [];
  ephemeral_containers = [];
  image_pull_secrets = [];
}

abbrev pub zero_workload : Workload
zero_workload = record {
  meta = zero_meta;
  replicas = none;
  selector = none;
  template = record { labels = none; spec = zero_pod_spec };
}

abbrev pub zero_route : Route
zero_route = record { meta = zero_meta; host = ""; subdomain = ""; to_name = ""; tls = none }
