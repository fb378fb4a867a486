-- ===== src/Examples.antt =====
-- A small cluster and a small configuration, for the tests.
mod Controllers
mod Models
mod States
mod Sound
mod Deployed
mod Workloads
mod Naming
mod Start
mod Matched
mod Configs
use mathlib.Core.List.Perm
use text.Mathlib.TextPositions.{eq_refl}
use janus_idp_operator.Prelude.{
  String, ℤ, pos, Option, none, some, List, [], ◌∷◌, ◌^◌, ◌≡◌, refl, true, false, is_some, All,
  ◌==◌, if◌then◌else◌,
}
use janus_idp_operator.GoError.{
  external, other, not_exist, not_found, already_exists, answered, failed,
}
use janus_idp_operator.Kube.{
  Container, ConfigMap, KubeObject, ObjectMeta, Route, Secret, Service, Workload, config_map,
  deployment, secret, service, stateful_set, route, zero_config_map, zero_meta, zero_route,
  zero_secret, zero_service, zero_workload, zero_pod_spec,
}
use janus_idp_operator.Api.{
  Application, AppConfigSpec, Backstage, BackstageSpec, Condition, Database, ObjectKeyRef,
  RouteSpec, Tls,
}
use janus_idp_operator.Platform.{Platform, VisitsAll}
use janus_idp_operator.Model.Objects.{RuntimeObject, db_secret, db_service, object}
use janus_idp_operator.Model.State.{BackstageModel}
use janus_idp_operator.Controller.Requests.{Server, History, NamespacedName}
use janus_idp_operator.Controller.Preprocess.Wanted.{SpecThere}
use janus_idp_operator.Controller.Reconcile.{Reconciler}
use janus_idp_operator.Controller.Reconcile.Status.{SetsCondition, find_condition}

abbrev pub named : String → ObjectMeta
named name = record zero_meta { name = name; namespace = "team" }

abbrev pub sample_container : Container
sample_container = record {
  name = "backstage-backend";
  image = "quay.io/janus-idp/backstage-showcase";
  working_dir = "";
  args = [];
  env = [];
  env_from = [];
  volume_mounts = [];
}

abbrev pub installer : Container
installer = record sample_container {
  name = "install-dynamic-plugins";
  working_dir = "/opt/app-root/src";
}

abbrev pub sample_workload : Workload
sample_workload = record zero_workload {
  selector = some none;
  template = record {
    labels = none;
    spec = record zero_pod_spec {
      init_containers = sample_container ∷ installer ∷ [];
      containers = sample_container ∷ [];
    };
  };
}

abbrev pub sample_service : Service
sample_service = record zero_service { meta = named "db"; ports = pos 5432 ∷ [] }

-- A document holds the sample object of its kind, but for the empty one, which changes nothing.
abbrev pub sample_of : KubeObject → KubeObject
sample_of (config_map o) =
    config_map (record o { content = some (("a.yaml", "a") ∷ ("b.yaml", "b") ∷ []) })
sample_of (secret o) = secret o
sample_of (service o) = service sample_service
sample_of (deployment o) = deployment sample_workload
sample_of (stateful_set o) = stateful_set sample_workload
sample_of (route o) = route o

abbrev pub sample_join : List String → String
sample_join [] = ""
sample_join (s ∷ []) = s
sample_join (s ∷ t ∷ ts) = s ^ "/" ^ sample_join (t ∷ ts)

abbrev pub sample_platform : Platform
sample_platform = record {
  getenv = λ name. "";
  stat = λ path. none;
  read_file = λ path. answered "kind: Sample";
  clean = λ path. path;
  join = sample_join;
  decode = λ manifest o. if manifest == "{}" then answered o else answered (sample_of o);
  rand_read = λ n. answered [];
  base64 = λ bytes. "cGFzc3dvcmQ=";
  format_int = λ n. "5432";
  range_order = λ site n ks. ks;
  sort_slice = λ lt rs. rs;
  set_controller_reference = λ b m. elim m.owner_references [
    | [] ↦ answered (record m { owner_references = b.meta.name ∷ [] })
    | r ∷ rs ↦ failed (external other "already owned by another controller")
  ];
  format_object = λ o. "object";
  format_kube_object = λ o. "object";
  set_condition = λ cs c. c ∷ cs;
}

pub sample-VisitsAll : VisitsAll sample_platform
sample-VisitsAll site n ks = Perm.refl ks

pub sample-SetsCondition : SetsCondition sample_platform
unfolding find_condition
sample-SetsCondition cs c = rw (eq_refl c.cond_type)

abbrev pub sample_application : Application
sample_application = record {
  app_config =
      some (record { mount_path = ""; config_maps = record { name = "my-config"; key = "" } ∷ [] });
  dynamic_plugins_config_map_name = "";
  extra_files = none;
  extra_envs = none;
  replicas = none;
  image = none;
  image_pull_secrets = [];
  route = none;
}

abbrev pub sample_spec : BackstageSpec
sample_spec = record {
  application = some sample_application;
  raw_runtime_config = none;
  database = none;
}

abbrev pub full_route : RouteSpec
full_route = record {
  enabled = some true;
  host = "host.example.com";
  subdomain = "sub";
  tls = some (record {
    certificate = "cert";
    external_certificate_secret_name = "";
    key = "key";
    ca_certificate = "";
  });
}

abbrev pub spec_with_route : RouteSpec → BackstageSpec
spec_with_route r = record sample_spec {
  application = some (record sample_application { route = some r });
}

abbrev pub external_db_spec : BackstageSpec
external_db_spec = record sample_spec {
  database = some (record { enable_local_db = some false; auth_secret_name = "" });
}

abbrev pub backstage_of : BackstageSpec → Backstage
backstage_of spec = record { meta = named "bs1"; spec = spec; status = record { conditions = [] } }

abbrev pub sample_backstage : Backstage
sample_backstage = backstage_of sample_spec

abbrev pub sample_config_map : String → ConfigMap
sample_config_map name = record zero_config_map { meta = named name }

-- A cluster that has each ConfigMap, and none of the operator's objects but its secrets.
abbrev pub sample_server : Server
sample_server = record {
  on_get_backstage = λ h n. answered sample_backstage;
  on_get_config_map = λ h n. answered (sample_config_map n.name);
  on_get_object = λ h k n. failed (external not_found "not found");
  on_write = λ h r. some (external already_exists "already exists");
}

abbrev pub empty_server : Server
empty_server = record sample_server {
  on_get_backstage = λ h n. failed (external not_found "not found");
}

-- A cluster that accepts every write.
abbrev pub accepting_server : Server
accepting_server = record sample_server { on_write = λ h r. none }

abbrev pub sample_objects : List RuntimeObject
sample_objects = db_secret (some zero_secret) ∷ db_service (some sample_service) ∷ []

pub sample_objects-live : All (λ o. is_some (object o) ≡ true) sample_objects
unfolding object
sample_objects-live = (refl, (refl, tt))

-- A cluster whose ConfigMaps have content.
abbrev pub stocked_config_map : String → ConfigMap
stocked_config_map name = record (sample_config_map name) {
  content = some (("db-service.yaml", name) ∷ []);
}

abbrev pub stocked_server : Server
stocked_server = record sample_server {
  on_get_config_map = λ h n. answered (stocked_config_map n.name);
}

abbrev pub raw_config_spec : BackstageSpec
raw_config_spec = record sample_spec {
  raw_runtime_config =
      some (record { backstage_config_name = "raw"; local_db_config_name = "raw-db" });
}

pub stocked-SpecThere :
    SpecThere (λ name. stocked_config_map name) stocked_server "team" raw_config_spec
stocked-SpecThere = record {
  raw = ((λ e. ((λ h. refl), refl)), (λ e. ((λ h. refl), refl)));
  app_configs = (((λ h. refl), refl), tt);
  extra_files = tt;
  extra_envs = tt;
  plugins = λ e. ((λ h. refl), refl);
}

abbrev pub sample_reconciler : Reconciler
sample_reconciler = record { owns_runtime = true; namespace = ""; is_openshift = true }

abbrev pub sample_request : NamespacedName
sample_request = record { name = "bs1"; namespace = "team" }
