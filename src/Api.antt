-- ===== src/Api.antt =====
-- api/v1alpha1/backstage_types.go: the Backstage custom resource. A slice is a list; nil and empty
-- slices are both `[]`, since the code that guards on nil only skips a loop over nothing.
use janus_idp_operator.Prelude.{
  String, ℤ, Bool, true, false, ◌&&◌, Option, none, some, List, ◌==◌, not, non_empty, deref,
}
use janus_idp_operator.Kube.{ObjectMeta}

pub record RuntimeConfig : Type 0 where
  pub backstage_config_name : String
  pub local_db_config_name : String

pub record Database : Type 0 where
  pub enable_local_db : Option Bool
  pub auth_secret_name : String

pub record ObjectKeyRef : Type 0 where
  pub name : String
  pub key : String

pub record AppConfigSpec : Type 0 where
  pub mount_path : String
  pub config_maps : List ObjectKeyRef

pub record ExtraFiles : Type 0 where
  pub mount_path : String
  pub config_maps : List ObjectKeyRef
  pub secrets : List ObjectKeyRef

pub record Env : Type 0 where
  pub name : String
  pub value : String

pub record ExtraEnvs : Type 0 where
  pub config_maps : List ObjectKeyRef
  pub secrets : List ObjectKeyRef
  pub envs : List Env

pub record Tls : Type 0 where
  pub certificate : String
  pub external_certificate_secret_name : String
  pub key : String
  pub ca_certificate : String

pub record RouteSpec : Type 0 where
  pub enabled : Option Bool
  pub host : String
  pub subdomain : String
  pub tls : Option Tls

pub record Application : Type 0 where
  pub app_config : Option AppConfigSpec
  pub dynamic_plugins_config_map_name : String
  pub extra_files : Option ExtraFiles
  pub extra_envs : Option ExtraEnvs
  pub replicas : Option ℤ
  pub image : Option String
  pub image_pull_secrets : List String
  pub route : Option RouteSpec

pub record BackstageSpec : Type 0 where
  pub application : Option Application
  pub raw_runtime_config : Option RuntimeConfig
  pub database : Option Database

-- metav1.Condition, with no time: the operator always writes the zero time.
pub record Condition : Type 0 where
  pub cond_type : String
  pub status : String
  pub reason : String
  pub message : String

pub record BackstageStatus : Type 0 where
  pub conditions : List Condition

pub record Backstage : Type 0 where
  pub meta : ObjectMeta
  pub spec : BackstageSpec
  pub status : BackstageStatus

abbrev pub condition_type_deployed : String
condition_type_deployed = "Deployed"

abbrev pub condition_reason_deployed : String
condition_reason_deployed = "Deployed"

abbrev pub condition_reason_failed : String
condition_reason_failed = "DeployFailed"

abbrev pub condition_reason_in_progress : String
condition_reason_in_progress = "DeployInProgress"

unfoldable pub is_local_db_enabled : BackstageSpec → Bool
is_local_db_enabled s = elim s.database [ none ↦ true | some db ↦ deref db.enable_local_db true ]

-- s.Application.Route, where no pointer on the way is nil
abbrev pub route_of : BackstageSpec → Option RouteSpec
route_of s = elim s.application [ none ↦ none | some app ↦ app.route ]

unfoldable pub is_route_enabled : BackstageSpec → Bool
is_route_enabled s = elim (route_of s) [ none ↦ false | some r ↦ deref r.enabled true ]

-- *t != (TLS{})
abbrev pub tls_ne_zero : Tls → Bool
tls_ne_zero t = not (
    t.certificate == ""
    && t.external_certificate_secret_name == ""
    && t.key == ""
    && t.ca_certificate == "")

-- IsRouteEmpty, whose receiver has an application and a route wherever it is called.
unfoldable pub is_route_empty : RouteSpec → Bool
is_route_empty r =
    non_empty r.host
    && non_empty r.subdomain
    && elim r.tls [ none ↦ false | some t ↦ tls_ne_zero t ]

unfoldable pub is_auth_secret_specified : BackstageSpec → Bool
is_auth_secret_specified s = elim s.database [
  | none ↦ false
  | some db ↦ non_empty db.auth_secret_name
]
