-- ===== src/Model/Returns/Contributions.antt =====
-- What the runtime objects contribute to a deployment that has the installer of the plugins returns no
-- error.
use janus_idp_operator.Prelude.{Option}
use janus_idp_operator.GoError.Errless.{Errless, Errless-bind, Errless-option}
use janus_idp_operator.Kube.{Workload, ConfigMap}
use janus_idp_operator.Platform.{Platform}
use janus_idp_operator.Model.Objects.{
  RuntimeObject, app_config, config_map_envs, config_map_files, dynamic_plugins, secret_envs,
  secret_files, ConfigMapMount, ConfigMapRef, SecretMount, SecretRef,
}
use janus_idp_operator.Model.Pods.{pod_of}
use janus_idp_operator.Model.AppConfig
use janus_idp_operator.Model.ConfigMapEnvs
use janus_idp_operator.Model.ConfigMapFiles
use janus_idp_operator.Model.DynamicPlugins
use janus_idp_operator.Model.DynamicPlugins.{dynamic_plugins_init_container, plugins_name}
use janus_idp_operator.Model.SecretEnvs
use janus_idp_operator.Model.SecretFiles
use janus_idp_operator.Model.Deployment.{contribute}
use janus_idp_operator.Model.Returns.{HasInstaller}
use janus_idp_operator.Model.Returns.Pods.{
  change_container-Errless, mount_in_first-Errless, mount_in_first_init-Errless,
  add_envs_to_first-Errless,
}

module _ (p : Platform) where
  pub app_config-Errless :
      (b : ConfigMapMount) (w : Workload)
      → HasInstaller w
      → Errless HasInstaller (AppConfig.update_pod p b w)
  unfolding AppConfig.update_pod
  app_config-Errless b w e =
      Errless-option HasInstaller b.object _ _ (λ _. tt)
        λ cm _.
          Errless-bind HasInstaller _ _
            (mount_in_first-Errless p _ cm.meta.name b.mount_path b.key cm.content w e)
            λ w' _ e'. change_container-Errless _ w' e'

  pub config_map_files-Errless :
      (b : ConfigMapMount) (w : Workload)
      → HasInstaller w
      → Errless HasInstaller (ConfigMapFiles.update_pod p b w)
  unfolding ConfigMapFiles.update_pod
  config_map_files-Errless b w e =
      Errless-option HasInstaller b.object _ _ (λ _. tt)
        λ cm _. mount_in_first-Errless p _ cm.meta.name b.mount_path b.key cm.content w e

  pub config_map_envs-Errless :
      (b : ConfigMapRef) (w : Workload)
      → HasInstaller w
      → Errless HasInstaller (ConfigMapEnvs.update_pod b w)
  unfolding ConfigMapEnvs.update_pod
  config_map_envs-Errless b w e =
      Errless-option HasInstaller b.object _ _ (λ _. tt)
        λ cm _. add_envs_to_first-Errless _ cm.meta.name b.key w e

  pub secret_envs-Errless :
      (b : SecretRef) (w : Workload)
      → HasInstaller w
      → Errless HasInstaller (SecretEnvs.update_pod b w)
  unfolding SecretEnvs.update_pod
  secret_envs-Errless b w e =
      Errless-option HasInstaller b.object _ _ (λ _. tt)
        λ s _. add_envs_to_first-Errless _ s.meta.name b.key w e

  pub secret_files-Errless :
      (b : SecretMount) (w : Workload)
      → HasInstaller w
      → Errless HasInstaller (SecretFiles.update_pod p b w)
  unfolding SecretFiles.update_pod
  secret_files-Errless b w e =
      Errless-option HasInstaller b.object _ _ (λ _. tt)
        λ s _. mount_in_first-Errless p _ s.meta.name b.mount_path b.key s.string_data w e

  pub plugins-Errless :
      (b : Option ConfigMap) (w : Workload)
      → HasInstaller w
      → Errless HasInstaller (DynamicPlugins.update_pod p b w)
  unfolding DynamicPlugins.update_pod
  plugins-Errless b w e =
      Errless-option HasInstaller (dynamic_plugins_init_container (pod_of w).init_containers) _ _
        (λ _. e)
        λ ic _.
          Errless-option HasInstaller b _ _ (λ _. tt)
            λ cm _.
              mount_in_first_init-Errless p _ cm.meta.name ic.working_dir _ cm.content
                (pod_of w).init_containers w e

  pub contribute-Errless :
      (o : RuntimeObject) (w : Workload) → HasInstaller w → Errless HasInstaller (contribute p o w)
  unfolding contribute
  contribute-Errless (app_config b) w e = app_config-Errless b w e
  contribute-Errless (config_map_envs b) w e = config_map_envs-Errless b w e
  contribute-Errless (config_map_files b) w e = config_map_files-Errless b w e
  contribute-Errless (dynamic_plugins b) w e = plugins-Errless b w e
  contribute-Errless (secret_envs b) w e = secret_envs-Errless b w e
  contribute-Errless (secret_files b) w e = secret_files-Errless b w e
  contribute-Errless _ w e = e
