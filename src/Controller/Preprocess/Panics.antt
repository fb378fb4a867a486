-- ===== src/Controller/Preprocess/Panics.antt =====
-- preprocessSpec does not panic, whatever the API server answers.
use janus_idp_operator.Prelude.{String, Option, none, some, List, [], ◌∷◌, ◌==◌, ◌^◌}
use janus_idp_operator.StringMap.{StringMap}
use janus_idp_operator.GoError.{Any, GoError, wrap, Reply, answered, failed}
use janus_idp_operator.Kube.{ConfigMap}
use janus_idp_operator.Api.{
  AppConfigSpec, Backstage, BackstageSpec, ExtraEnvs, ExtraFiles, ObjectKeyRef, RuntimeConfig,
}
use janus_idp_operator.Platform.{Platform}
use janus_idp_operator.Controller.Exec.Calm.{Calm, Calm-bind, Calm-if}
use janus_idp_operator.Controller.Requests.{Server, History, send_get_config_map}
use janus_idp_operator.Controller.Preprocess.{
  application_of, or_raise, copy_data, add_raw, process_raw_config, process_app_configs,
  process_extra_files, process_extra_envs, process_dynamic_plugins, preprocess, preprocess_spec,
  get_each, get_config_map_or,
}

module _ (p : Platform) (s : Server) (ns : String) where
  or_raise-Calm :
      (wrapped : GoError → GoError) (r : Reply ConfigMap)
      → Calm {S = History} Any (or_raise wrapped r)
  or_raise-Calm wrapped (answered cm) h = tt
  or_raise-Calm wrapped (failed e) h = tt

  get_config_map_or-Calm :
      (message name : String) → Calm Any (get_config_map_or p s ns message name)
  unfolding get_config_map_or send_get_config_map
  get_config_map_or-Calm message name =
      Calm-bind Any Any (send_get_config_map s (record { name = name; namespace = ns }))
        (λ reply. or_raise (wrap message) reply) (λ h. tt) λ r _. or_raise-Calm (wrap message) r

  copy_data-Calm :
      (content : Option (StringMap String)) (dst : StringMap String)
      → Calm Any (copy_data p s ns content dst)
  copy_data-Calm none dst h = tt
  copy_data-Calm (some src) dst h = tt

  add_raw-Calm : (name : String) (raw : StringMap String) → Calm Any (add_raw p s ns name raw)
  unfolding add_raw
  add_raw-Calm name raw =
      Calm-if Any (name == "") _ _ (λ h. tt)
        (Calm-bind Any Any
          (get_config_map_or p s ns ("failed to load rawConfig " ^ name ^ ": ") name) _
          (get_config_map_or-Calm ("failed to load rawConfig " ^ name ^ ": ") name)
          λ cm _. copy_data-Calm cm.content raw)

  raw_config-Calm : (c : Option RuntimeConfig) → Calm Any (process_raw_config p s ns c)
  unfolding process_raw_config
  raw_config-Calm none = λ h. tt
  raw_config-Calm (some c) =
      Calm-bind Any Any (add_raw p s ns c.backstage_config_name []) _
        (add_raw-Calm c.backstage_config_name []) λ raw _. add_raw-Calm c.local_db_config_name raw

  get_each-Calm :
      (message : String) (refs : List ObjectKeyRef) (result : StringMap ConfigMap)
      → Calm Any (get_each p s ns message refs result)
  unfolding get_each
  get_each-Calm message [] result = λ h. tt
  get_each-Calm message (ref ∷ refs) result =
      Calm-bind Any Any (get_config_map_or p s ns (message ^ ref.name ^ ": ") ref.name) _
        (get_config_map_or-Calm (message ^ ref.name ^ ": ") ref.name)
        λ cm _. get_each-Calm message refs _

  app_configs-Calm : (x : Option AppConfigSpec) → Calm Any (process_app_configs p s ns x)
  unfolding process_app_configs
  app_configs-Calm none = λ h. tt
  app_configs-Calm (some x) = get_each-Calm _ x.config_maps []

  extra_files-Calm : (x : Option ExtraFiles) → Calm Any (process_extra_files p s ns x)
  unfolding process_extra_files
  extra_files-Calm none = λ h. tt
  extra_files-Calm (some x) = get_each-Calm _ x.config_maps []

  extra_envs-Calm : (x : Option ExtraEnvs) → Calm Any (process_extra_envs p s ns x)
  unfolding process_extra_envs
  extra_envs-Calm none = λ h. tt
  extra_envs-Calm (some x) = get_each-Calm _ x.config_maps []

  plugins-Calm : (name : String) → Calm Any (process_dynamic_plugins p s ns name)
  unfolding process_dynamic_plugins
  plugins-Calm name = Calm-if Any (name == "") _ _ (λ h. tt) (get_config_map_or-Calm _ name)

  preprocess-Calm : (spec : BackstageSpec) → Calm Any (preprocess p s ns spec)
  unfolding preprocess
  preprocess-Calm spec =
      let app = application_of spec in
      Calm-bind Any Any (process_raw_config p s ns spec.raw_runtime_config) _
        (raw_config-Calm spec.raw_runtime_config)
        λ raw _.
          Calm-bind Any Any (process_app_configs p s ns app.app_config) _
            (app_configs-Calm app.app_config)
            λ configs _.
              Calm-bind Any Any (process_extra_files p s ns app.extra_files) _
                (extra_files-Calm app.extra_files)
                λ files _.
                  Calm-bind Any Any (process_extra_envs p s ns app.extra_envs) _
                    (extra_envs-Calm app.extra_envs)
                    λ envs _.
                      Calm-bind Any Any
                        (process_dynamic_plugins p s ns app.dynamic_plugins_config_map_name) _
                        (plugins-Calm app.dynamic_plugins_config_map_name) λ plugins _ h. tt

pub preprocess_spec-Calm :
    (p : Platform) (s : Server) (b : Backstage) → Calm Any (preprocess_spec p s b)
unfolding preprocess_spec
preprocess_spec-Calm p s b = preprocess-Calm p s b.meta.namespace b.spec
