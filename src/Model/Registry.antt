-- ===== src/Model/Registry.antt =====
-- runtimeConfig, the table of the classes with their files, and registerConfig (pkg/model/runtime.go),
-- which the init function of each class calls.
use janus_idp_operator.Prelude.{String, List, [], ◌∷◌, ◌++◌}
use janus_idp_operator.Model.Objects.{
  ObjectFactory, app_config_factory, config_map_envs_factory, config_map_files_factory,
  db_secret_factory, db_service_factory, db_stateful_set_factory, backstage_deployment_factory,
  dynamic_plugins_factory, backstage_route_factory, secret_envs_factory, secret_files_factory,
  backstage_service_factory,
}

pub record ObjectConfig : Type 0 where
  pub object_factory : ObjectFactory
  pub key : String

abbrev pub register_config : String → ObjectFactory → List ObjectConfig → List ObjectConfig
register_config key factory config = config ++ record { object_factory = factory; key = key } ∷ []

-- The init functions.
abbrev pub init_app_config : List ObjectConfig → List ObjectConfig
init_app_config = register_config "app-config.yaml" app_config_factory

abbrev pub init_config_map_envs : List ObjectConfig → List ObjectConfig
init_config_map_envs = register_config "configmap-envs.yaml" config_map_envs_factory

abbrev pub init_config_map_files : List ObjectConfig → List ObjectConfig
init_config_map_files = register_config "configmap-files.yaml" config_map_files_factory

abbrev pub init_db_secret : List ObjectConfig → List ObjectConfig
init_db_secret = register_config "db-secret.yaml" db_secret_factory

abbrev pub init_db_service : List ObjectConfig → List ObjectConfig
init_db_service = register_config "db-service.yaml" db_service_factory

abbrev pub init_db_stateful_set : List ObjectConfig → List ObjectConfig
init_db_stateful_set = register_config "db-statefulset.yaml" db_stateful_set_factory

abbrev pub init_backstage_deployment : List ObjectConfig → List ObjectConfig
init_backstage_deployment = register_config "deployment.yaml" backstage_deployment_factory

abbrev pub init_dynamic_plugins : List ObjectConfig → List ObjectConfig
init_dynamic_plugins = register_config "dynamic-plugins.yaml" dynamic_plugins_factory

abbrev pub init_backstage_route : List ObjectConfig → List ObjectConfig
init_backstage_route = register_config "route.yaml" backstage_route_factory

abbrev pub init_secret_envs : List ObjectConfig → List ObjectConfig
init_secret_envs = register_config "secret-envs.yaml" secret_envs_factory

abbrev pub init_secret_files : List ObjectConfig → List ObjectConfig
init_secret_files = register_config "secret-files.yaml" secret_files_factory

abbrev pub init_backstage_service : List ObjectConfig → List ObjectConfig
init_backstage_service = register_config "service.yaml" backstage_service_factory

-- The init functions of a package run by file name.
abbrev pub runtime_config : List ObjectConfig
runtime_config = init_backstage_service (
    init_secret_files (
      init_secret_envs (
        init_backstage_route (
          init_dynamic_plugins (
            init_backstage_deployment (
              init_db_stateful_set (
                init_db_service (
                  init_db_secret
                    (init_config_map_files (init_config_map_envs (init_app_config [])))))))))))
