-- ===== src/Model/Methods.antt =====
-- The methods of RuntimeObject (pkg/model/interfaces.go) that have a body for each class.
use janus_idp_operator.Prelude.{String, Bool}
use janus_idp_operator.GoError.{Outcome}
use janus_idp_operator.Api.{BackstageSpec}
use janus_idp_operator.Platform.{Platform}
use janus_idp_operator.Model.Objects.{
  RuntimeObject, rebuild, app_config, config_map_envs, config_map_files, db_secret, db_service,
  db_stateful_set, backstage_deployment, dynamic_plugins, backstage_route, secret_envs,
  secret_files, backstage_service,
}
use janus_idp_operator.Model.State.{Ref, BackstageModel}
use janus_idp_operator.Model.AppConfig
use janus_idp_operator.Model.ConfigMapEnvs
use janus_idp_operator.Model.ConfigMapFiles
use janus_idp_operator.Model.DbSecret
use janus_idp_operator.Model.DbService
use janus_idp_operator.Model.DbStatefulSet
use janus_idp_operator.Model.Deployment
use janus_idp_operator.Model.DynamicPlugins
use janus_idp_operator.Model.BackstageRoute
use janus_idp_operator.Model.SecretEnvs
use janus_idp_operator.Model.SecretFiles
use janus_idp_operator.Model.BackstageService

-- The methods addToModel and validate: each class has its own.
module _ (p : Platform) where
  unfoldable pub add_to_model :
      RuntimeObject → Ref → BackstageSpec → BackstageModel → Outcome (Bool × BackstageModel)
  unfolding AppConfig.add_to_model ConfigMapEnvs.add_to_model ConfigMapFiles.add_to_model
      DbSecret.add_to_model DbService.add_to_model DbStatefulSet.add_to_model
      Deployment.add_to_model DynamicPlugins.add_to_model BackstageRoute.add_to_model
      SecretEnvs.add_to_model SecretFiles.add_to_model BackstageService.add_to_model
  add_to_model (app_config b) r spec m = AppConfig.add_to_model b r m
  add_to_model (config_map_envs b) r spec m = ConfigMapEnvs.add_to_model b r m
  add_to_model (config_map_files b) r spec m = ConfigMapFiles.add_to_model b r m
  add_to_model (db_secret b) r spec m = DbSecret.add_to_model b r m
  add_to_model (db_service b) r spec m = DbService.add_to_model b r m
  add_to_model (db_stateful_set b) r spec m = DbStatefulSet.add_to_model p b r m
  add_to_model (backstage_deployment b) r spec m = Deployment.add_to_model p b r m
  add_to_model (dynamic_plugins b) r spec m = DynamicPlugins.add_to_model b r spec m
  add_to_model (backstage_route b) r spec m = BackstageRoute.add_to_model b r spec m
  add_to_model (secret_envs b) r spec m = SecretEnvs.add_to_model b r m
  add_to_model (secret_files b) r spec m = SecretFiles.add_to_model b r m
  add_to_model (backstage_service b) r spec m = BackstageService.add_to_model b r m

  unfoldable pub validate :
      RuntimeObject → Ref → BackstageSpec → BackstageModel → Outcome BackstageModel
  unfolding DbSecret.validate DbStatefulSet.validate Deployment.validate DynamicPlugins.validate
      BackstageRoute.validate
  validate (db_secret b) r spec m = DbSecret.validate p b r spec m
  validate (db_stateful_set b) r spec m = DbStatefulSet.validate b r m
  validate (backstage_deployment b) r spec m = Deployment.validate p b r spec m
  validate (dynamic_plugins b) r spec m = DynamicPlugins.validate p m
  validate (backstage_route b) r spec m = BackstageRoute.validate b r m
  validate (app_config b) r spec m = AppConfig.validate m
  validate (config_map_envs b) r spec m = ConfigMapEnvs.validate m
  validate (config_map_files b) r spec m = ConfigMapFiles.validate m
  validate (db_service b) r spec m = DbService.validate m
  validate (secret_envs b) r spec m = SecretEnvs.validate m
  validate (secret_files b) r spec m = SecretFiles.validate m
  validate (backstage_service b) r spec m = BackstageService.validate m

-- The method setMetaInfo of each class.
unfoldable pub set_object_meta_info : RuntimeObject → String → Outcome RuntimeObject
unfolding AppConfig.set_meta_info ConfigMapEnvs.set_meta_info ConfigMapFiles.set_meta_info
    DbSecret.set_meta_info DbService.set_meta_info DbStatefulSet.set_meta_info
    Deployment.set_meta_info DynamicPlugins.set_meta_info BackstageRoute.set_meta_info
    SecretEnvs.set_meta_info SecretFiles.set_meta_info BackstageService.set_meta_info
set_object_meta_info (app_config b) n = rebuild app_config (AppConfig.set_meta_info b n)
set_object_meta_info (config_map_envs b) n =
    rebuild config_map_envs (ConfigMapEnvs.set_meta_info b n)
set_object_meta_info (config_map_files b) n =
    rebuild config_map_files (ConfigMapFiles.set_meta_info b n)
set_object_meta_info (db_secret b) n = rebuild db_secret (DbSecret.set_meta_info b n)
set_object_meta_info (db_service b) n = rebuild db_service (DbService.set_meta_info b n)
set_object_meta_info (db_stateful_set b) n =
    rebuild db_stateful_set (DbStatefulSet.set_meta_info b n)
set_object_meta_info (backstage_deployment b) n =
    rebuild backstage_deployment (Deployment.set_meta_info b n)
set_object_meta_info (dynamic_plugins b) n =
    rebuild dynamic_plugins (DynamicPlugins.set_meta_info b n)
set_object_meta_info (backstage_route b) n =
    rebuild backstage_route (BackstageRoute.set_meta_info b n)
set_object_meta_info (secret_envs b) n = rebuild secret_envs (SecretEnvs.set_meta_info b n)
set_object_meta_info (secret_files b) n = rebuild secret_files (SecretFiles.set_meta_info b n)
set_object_meta_info (backstage_service b) n =
    rebuild backstage_service (BackstageService.set_meta_info b n)
