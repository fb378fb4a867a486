-- ===== src/Controller/Preprocess.antt =====
-- controllers/spec_preprocessor.go: the ConfigMaps that the spec names are read.
pub mod Complete
pub mod Finds
pub mod Panics
pub mod Wanted
pub mod Answered
pub mod Bounds
use janus_idp_operator.Prelude.{String, Option, none, some, List, [], ◌∷◌, ◌==◌, ◌^◌, if◌then◌else◌}
use janus_idp_operator.Prelude.Counting.{length}
use janus_idp_operator.StringMap.{StringMap, insert, keys, get_or_empty}
use janus_idp_operator.GoError.{GoError, wrap, Reply, answered, failed}
use janus_idp_operator.Kube.{ConfigMap, config_map, zero_config_map}
use janus_idp_operator.Api.{
  Backstage, BackstageSpec, Application, AppConfigSpec, ExtraFiles, ExtraEnvs, RuntimeConfig,
  ObjectKeyRef,
}
use janus_idp_operator.Platform.{Platform, raw_config}
use janus_idp_operator.Model.State.{ExternalConfig}
use janus_idp_operator.Controller.Exec.{Exec, pure, raise, ◌>>=◌}
use janus_idp_operator.Controller.Requests.{Server, History, send_get_config_map}

abbrev pub no_config : ExternalConfig
no_config = record {
  raw_config = [];
  app_configs = [];
  extra_file_config_maps = [];
  extra_env_config_maps = [];
  dynamic_plugins = zero_config_map;
}

-- for key, value := range cm.Data { result.RawConfig[key] = value }, over the keys in their order
unfoldable pub copy_each : StringMap String → List String → StringMap String → StringMap String
copy_each src [] dst = dst
copy_each src (key ∷ ks) dst = copy_each src ks (insert key (get_or_empty key src) dst)

abbrev pub or_raise {ℓ} : {S A : Type ℓ} → (GoError → GoError) → Reply A → Exec S A
or_raise wrapped (answered a) = pure a
or_raise wrapped (failed e) = raise (wrapped e)

abbrev pub zero_application : Application
zero_application = record {
  app_config = none;
  dynamic_plugins_config_map_name = "";
  extra_files = none;
  extra_envs = none;
  replicas = none;
  image = none;
  image_pull_secrets = [];
  route = none;
}

abbrev pub application_of : BackstageSpec → Application
application_of spec = elim spec.application [ none ↦ zero_application | some app ↦ app ]

module _ (p : Platform) (s : Server) (ns : String) where
  -- r.Get of a ConfigMap, with the text in front of an error
  unfoldable pub get_config_map_or : String → String → Exec History ConfigMap
  unfolding send_get_config_map
  get_config_map_or message name = do
    reply ← send_get_config_map s (record { name = name; namespace = ns })
    or_raise (wrap message) reply

  -- The keys are visited in an order that depends on the requests so far.
  abbrev pub copy_data :
      Option (StringMap String) → StringMap String → Exec History (StringMap String)
  copy_data none dst h = pure dst h
  copy_data (some src) dst h =
      pure (copy_each src (p.range_order raw_config (length h) (keys src)) dst) h

  unfoldable pub add_raw : String → StringMap String → Exec History (StringMap String)
  unfolding get_config_map_or copy_each
  add_raw name raw =
      let read : Exec History (StringMap String) =
        get_config_map_or ("failed to load rawConfig " ^ name ^ ": ") name >>= λ cm.
        copy_data cm.content raw in
      if name == "" then pure raw else read

  unfoldable pub process_raw_config : Option RuntimeConfig → Exec History (StringMap String)
  unfolding add_raw
  process_raw_config none = pure []
  process_raw_config (some config) = do
    raw ← add_raw config.backstage_config_name []
    add_raw config.local_db_config_name raw

  -- A loop over references: each ConfigMap is read, and kept under the name that it came with.
  unfoldable pub get_each :
      String → List ObjectKeyRef → StringMap ConfigMap → Exec History (StringMap ConfigMap)
  unfolding get_config_map_or
  get_each message [] result = pure result
  get_each message (ref ∷ refs) result = do
    cm ← get_config_map_or (message ^ ref.name ^ ": ") ref.name
    get_each message refs (insert cm.meta.name cm result)

  unfoldable pub process_app_configs : Option AppConfigSpec → Exec History (StringMap ConfigMap)
  unfolding get_each
  process_app_configs none = pure []
  process_app_configs (some x) = get_each "failed to get configMap " x.config_maps []

  unfoldable pub process_extra_files : Option ExtraFiles → Exec History (StringMap ConfigMap)
  unfolding get_each
  process_extra_files none = pure []
  process_extra_files (some x) = get_each "failed to get ConfigMap " x.config_maps []

  unfoldable pub process_extra_envs : Option ExtraEnvs → Exec History (StringMap ConfigMap)
  unfolding get_each
  process_extra_envs none = pure []
  process_extra_envs (some x) = get_each "failed to get configMap " x.config_maps []

  -- The error shows the empty ConfigMap, not the name.
  unfoldable pub process_dynamic_plugins : String → Exec History ConfigMap
  unfolding get_config_map_or
  process_dynamic_plugins name =
      if name == ""
      then pure zero_config_map
      else get_config_map_or
          ("failed to get ConfigMap " ^ p.format_kube_object (config_map zero_config_map) ^ ": ")
          name

  unfoldable pub preprocess : BackstageSpec → Exec History ExternalConfig
  unfolding process_raw_config process_app_configs process_extra_files process_extra_envs
      process_dynamic_plugins
  preprocess spec = do
    raw ← process_raw_config spec.raw_runtime_config
    app_configs ← process_app_configs (application_of spec).app_config
    files ← process_extra_files (application_of spec).extra_files
    envs ← process_extra_envs (application_of spec).extra_envs
    plugins ← process_dynamic_plugins (application_of spec).dynamic_plugins_config_map_name
    pure (record {
      raw_config = raw;
      app_configs = app_configs;
      extra_file_config_maps = files;
      extra_env_config_maps = envs;
      dynamic_plugins = plugins;
    })

-- preprocessSpec
unfoldable pub preprocess_spec : Platform → Server → Backstage → Exec History ExternalConfig
unfolding preprocess
preprocess_spec p s backstage = preprocess p s backstage.meta.namespace backstage.spec
