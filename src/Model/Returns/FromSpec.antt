-- ===== src/Model/Returns/FromSpec.antt =====
-- What the spec contributes to a deployment that has the installer of the plugins returns no error, if
-- the spec's secrets are given with their keys.
use janus_idp_operator.Prelude.{
  String, false, Option, none, some, is_some, List, [], ◌∷◌, ◌==◌, ◌≡◌, refl, All, not, subst,
}
use janus_idp_operator.GoError.Errless.{Errless, Errless-bind, Errless-if, Errless-option}
use janus_idp_operator.Kube.{Workload, zero_meta}
use janus_idp_operator.Api.{AppConfigSpec, BackstageSpec, ObjectKeyRef, Application, ExtraFiles}
use janus_idp_operator.Platform.{Platform}
use janus_idp_operator.Model.State.{ExternalConfig}
use janus_idp_operator.Model.Pods.{pod_of, config_map_at, mount_path_or_default}
use janus_idp_operator.Model.AppConfig
use janus_idp_operator.Model.ConfigMapEnvs
use janus_idp_operator.Model.ConfigMapFiles
use janus_idp_operator.Model.DynamicPlugins
use janus_idp_operator.Model.DynamicPlugins.{dynamic_plugins_init_container, plugins_name}
use janus_idp_operator.Model.SecretEnvs
use janus_idp_operator.Model.SecretFiles
use janus_idp_operator.Model.Returns.{HasInstaller}
use janus_idp_operator.Model.Returns.Contributions.{
  app_config-Errless, config_map_files-Errless, config_map_envs-Errless, secret_envs-Errless,
  secret_files-Errless, plugins-Errless,
}

-- Each reference names a key.
abbrev pub HaveKeys : List ObjectKeyRef → Type 0
HaveKeys = All (λ ref. (ref.key == "") ≡ false)

abbrev pub secrets_of_files : Option ExtraFiles → List ObjectKeyRef
secrets_of_files none = []
secrets_of_files (some x) = x.secrets

abbrev pub file_secrets : BackstageSpec → List ObjectKeyRef
file_secrets spec = elim spec.application [
  | none ↦ []
  | some app ↦ secrets_of_files app.extra_files
]

module _ (p : Platform) where
  app_configs-Errless :
      (s : AppConfigSpec) (external : ExternalConfig) (refs : List ObjectKeyRef) (w : Workload)
      → HasInstaller w
      → Errless HasInstaller (AppConfig.add_each p s external refs w)
  unfolding AppConfig.add_each
  app_configs-Errless s external [] w e = e
  app_configs-Errless s external (ref ∷ refs) w e =
      Errless-bind HasInstaller _ _
        (app_config-Errless p
          (record {
            object = some (config_map_at ref.name external.app_configs);
            mount_path = mount_path_or_default s.mount_path;
            key = ref.key;
          })
          w e)
        λ w' _ e'. app_configs-Errless s external refs w' e'

  pub add_app_configs-Errless :
      (spec : BackstageSpec) (w : Workload) (external : ExternalConfig)
      → HasInstaller w
      → Errless HasInstaller (AppConfig.add_app_configs p spec w external)
  unfolding AppConfig.add_app_configs
  add_app_configs-Errless spec w external e =
      Errless-option HasInstaller spec.application _ _ (λ _. e)
        λ app _.
          Errless-option HasInstaller app.app_config _ _ (λ _. e)
            λ s _. app_configs-Errless s external s.config_maps w e

  files-Errless :
      (mp : String) (external : ExternalConfig) (refs : List ObjectKeyRef) (w : Workload)
      → HasInstaller w
      → Errless HasInstaller (ConfigMapFiles.add_each p mp external refs w)
  unfolding ConfigMapFiles.add_each
  files-Errless mp external [] w e = e
  files-Errless mp external (ref ∷ refs) w e =
      Errless-bind HasInstaller _ _
        (config_map_files-Errless p
          (record {
            object = some (config_map_at ref.name external.extra_file_config_maps);
            mount_path = mp;
            key = ref.key;
          })
          w e)
        λ w' _ e'. files-Errless mp external refs w' e'

  pub add_config_map_files-Errless :
      (spec : BackstageSpec) (w : Workload) (external : ExternalConfig)
      → HasInstaller w
      → Errless HasInstaller (ConfigMapFiles.add_config_map_files p spec w external)
  unfolding ConfigMapFiles.add_config_map_files
  add_config_map_files-Errless spec w external e =
      Errless-option HasInstaller spec.application _ _ (λ _. e)
        λ app _.
          Errless-option HasInstaller app.extra_files _ _ (λ _. e)
            λ s _. files-Errless _ external s.config_maps w e

  envs-Errless :
      (external : ExternalConfig) (refs : List ObjectKeyRef) (w : Workload)
      → HasInstaller w
      → Errless HasInstaller (ConfigMapEnvs.add_each external refs w)
  unfolding ConfigMapEnvs.add_each
  envs-Errless external [] w e = e
  envs-Errless external (ref ∷ refs) w e =
      Errless-bind HasInstaller _ _
        (config_map_envs-Errless p
          (record {
            object = some (config_map_at ref.name external.extra_env_config_maps);
            key = ref.key;
          })
          w e)
        λ w' _ e'. envs-Errless external refs w' e'

  pub add_config_map_envs-Errless :
      (spec : BackstageSpec) (w : Workload) (external : ExternalConfig)
      → HasInstaller w
      → Errless HasInstaller (ConfigMapEnvs.add_config_map_envs spec w external)
  unfolding ConfigMapEnvs.add_config_map_envs
  add_config_map_envs-Errless spec w external e =
      Errless-option HasInstaller spec.application _ _ (λ _. e)
        λ app _.
          Errless-option HasInstaller app.extra_envs _ _ (λ _. e)
            λ s _. envs-Errless external s.config_maps w e

  secrets-Errless :
      (mp : String) (refs : List ObjectKeyRef) (w : Workload)
      → HaveKeys refs
      → HasInstaller w
      → Errless HasInstaller (SecretFiles.add_each p mp refs w)
  unfolding SecretFiles.add_each
  secrets-Errless mp [] w keys e = e
  secrets-Errless mp (sec ∷ secs) w (key, keys) e =
      Errless-if HasInstaller (sec.key == "") _ _ (λ empty. cc (key, empty))
        λ _.
          Errless-bind HasInstaller _ _ (secret_files-Errless p (SecretFiles.mount_of p mp sec) w e)
            λ w' _ e'. secrets-Errless mp secs w' keys e'

  pub add_secret_files-Errless :
      (spec : BackstageSpec) (w : Workload)
      → HaveKeys (file_secrets spec)
      → HasInstaller w
      → Errless HasInstaller (SecretFiles.add_secret_files p spec w)
  unfolding SecretFiles.add_secret_files
  add_secret_files-Errless spec w keys e =
      Errless-option HasInstaller spec.application _ _ (λ _. e)
        λ app n.
          Errless-option HasInstaller app.extra_files _ _ (λ _. e)
            λ s n'. secrets-Errless _ s.secrets w (subst HaveKeys (listed app s n n') keys) e
    where
      listed :
          (app : Application) (s : ExtraFiles)
          → spec.application ≡ some app
          → app.extra_files ≡ some s
          → file_secrets spec ≡ s.secrets
      listed app s n n' = rw n (rw n' refl)

  variables-Errless :
      (refs : List ObjectKeyRef) (w : Workload)
      → HasInstaller w
      → Errless HasInstaller (SecretEnvs.add_each refs w)
  unfolding SecretEnvs.add_each
  variables-Errless [] w e = e
  variables-Errless (sec ∷ secs) w e =
      Errless-bind HasInstaller _ _
        (secret_envs-Errless p
          (record {
            object =
                some (record { meta = record zero_meta { name = sec.name }; string_data = none });
            key = sec.key;
          })
          w e)
        λ w' _ e'. variables-Errless secs w' e'

  pub add_secret_envs-Errless :
      (spec : BackstageSpec) (w : Workload)
      → HasInstaller w
      → Errless HasInstaller (SecretEnvs.add_secret_envs spec w)
  unfolding SecretEnvs.add_secret_envs
  add_secret_envs-Errless spec w e =
      Errless-option HasInstaller spec.application _ _ (λ _. e)
        λ app _.
          Errless-option HasInstaller app.extra_envs _ _ (λ _. e)
            λ s _. variables-Errless s.secrets w e

  pub add_dynamic_plugins-Errless :
      (spec : BackstageSpec) (w : Workload) (external : ExternalConfig)
      → HasInstaller w
      → Errless HasInstaller (DynamicPlugins.add_dynamic_plugins p spec w external)
  unfolding DynamicPlugins.add_dynamic_plugins
  add_dynamic_plugins-Errless spec w external e =
      Errless-if HasInstaller (plugins_name spec == "") _ _ (λ _. e)
        λ _.
          Errless-if HasInstaller
            (not (is_some (dynamic_plugins_init_container (pod_of w).init_containers))) _ _
            (λ missing. cc (e, missing)) λ _. plugins-Errless p (some external.dynamic_plugins) w e
