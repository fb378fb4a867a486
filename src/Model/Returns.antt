-- ===== src/Model/Returns.antt =====
-- InitObjects returns no error if the configuration has what it asks for.
pub mod Pods
pub mod Contributions
pub mod FromSpec
pub mod Finish
pub mod Validation
pub mod MetaInfo
pub mod Provided
pub mod Loading
pub mod Registration
pub mod Whole
use janus_idp_operator.Prelude.{
  Bool, true, Option, none, some, is_some, ◌≡◌, Bool-cases, inl, inr, same,
}
use janus_idp_operator.Kube.{Workload}
use janus_idp_operator.Model.Objects.{RuntimeObject, backstage_deployment}
use janus_idp_operator.Model.State.{ExternalConfig, Ref, BackstageModel, store}
use janus_idp_operator.Model.Pods.{pod_of}
use janus_idp_operator.Model.DynamicPlugins.{dynamic_plugins_init_container}

-- The workload has the init container that installs the plugins.
abbrev pub HasInstaller : Workload → Type 0
HasInstaller w = is_some (dynamic_plugins_init_container (pod_of w).init_containers) ≡ true

-- A deployment has the installer of the plugins.
abbrev pub installer_in : RuntimeObject → Bool
installer_in (backstage_deployment (some w)) =
    is_some (dynamic_plugins_init_container (pod_of w).init_containers)
installer_in _ = true

abbrev pub installer_at : Option RuntimeObject → Bool
installer_at none = true
installer_at (some o) = installer_in o

-- Every deployment of the model has the installer, and the model has the given setting of the
-- database and the given external configuration.
pub record IsReady (local_db : Bool) (external : ExternalConfig) (m : BackstageModel) : Type 0 where
  pub installers : (r : Ref) → installer_at (m.heap r) ≡ true
  pub setting : m.local_db_enabled ≡ local_db
  pub config : m.external_config ≡ external

pub store-IsReady :
    (local_db : Bool) (external : ExternalConfig) (m : BackstageModel) (r : Ref) (o : RuntimeObject)
    → installer_in o ≡ true
    → IsReady local_db external m
    → IsReady local_db external (store r o m)
store-IsReady local_db external m r o e ready = record {
  installers =
      λ q. elim (Bool-cases (same r q)) [ inl t ↦ rw t e | inr f ↦ rw f (ready.installers q) ];
  setting = ready.setting;
  config = ready.config;
}
