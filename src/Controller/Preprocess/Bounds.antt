-- ===== src/Controller/Preprocess/Bounds.antt =====
-- How many requests the reading of the ConfigMaps takes.
use janus_idp_operator.Prelude.{
  ℕ, ◌+◌, String, Option, none, some, List, [], ◌∷◌, ◌==◌, arith, if◌then◌else◌,
}
use janus_idp_operator.Prelude.Counting.{length}
use janus_idp_operator.StringMap.{StringMap}
use janus_idp_operator.GoError.{wrap, Reply, answered, failed}
use janus_idp_operator.Kube.{ConfigMap}
use janus_idp_operator.Api.{
  BackstageSpec, Backstage, ObjectKeyRef, RuntimeConfig, AppConfigSpec, ExtraFiles, ExtraEnvs,
}
use janus_idp_operator.Platform.{Platform}
use janus_idp_operator.Controller.Exec.Costs.{
  Costs, Costs-pure, Costs-raise, Costs-more, Costs-branch, Costs-bind,
}
use janus_idp_operator.Controller.Requests.{Server, send_get_config_map}
use janus_idp_operator.Controller.Requests.Bounds.{sent, send_get_config_map-Costs}
use janus_idp_operator.Controller.Preprocess.{
  application_of, preprocess, preprocess_spec, get_config_map_or, or_raise, copy_data, add_raw,
  process_raw_config, get_each, process_app_configs, process_extra_files, process_extra_envs,
  process_dynamic_plugins,
}
use janus_idp_operator.Controller.Preprocess.Complete.{app_config_refs, file_refs, env_refs}

-- A name that is not empty is read once.
abbrev pub reads_of : String → ℕ
reads_of name = if name == "" then 0 else 1

abbrev pub raw_reads : Option RuntimeConfig → ℕ
raw_reads none = 0
raw_reads (some c) = reads_of c.backstage_config_name + reads_of c.local_db_config_name

-- How many ConfigMaps the spec names, with their repetitions.
unfoldable pub named_config_maps : BackstageSpec → ℕ
named_config_maps spec =
    raw_reads spec.raw_runtime_config
    + (length (app_config_refs (application_of spec).app_config)
        + (length (file_refs (application_of spec).extra_files)
            + (length (env_refs (application_of spec).extra_envs)
                + reads_of (application_of spec).dynamic_plugins_config_map_name)))

module _ (p : Platform) (s : Server) (ns : String) where
  or_raise-Costs :
      (message : String) (reply : Reply ConfigMap) → Costs sent 0 (or_raise (wrap message) reply)
  or_raise-Costs message (answered cm) = Costs-pure cm
  or_raise-Costs message (failed e) = Costs-raise _

  get_config_map_or-Costs :
      (message name : String) → Costs sent 1 (get_config_map_or p s ns message name)
  unfolding get_config_map_or send_get_config_map
  get_config_map_or-Costs message name =
      Costs-bind 1 0 _ _ (send_get_config_map-Costs s _) λ reply. or_raise-Costs message reply

  copy_data-Costs :
      (content : Option (StringMap String)) (raw : StringMap String)
      → Costs sent 0 (copy_data p s ns content raw)
  copy_data-Costs none raw = record { spends = λ h. omega arith }
  copy_data-Costs (some src) raw = record { spends = λ h. omega arith }

  add_raw-Costs :
      (name : String) (raw : StringMap String)
      → Costs sent (reads_of name) (add_raw p s ns name raw)
  unfolding add_raw
  add_raw-Costs name raw =
      Costs-branch 0 1 (name == "") _ _ (Costs-pure raw)
        (Costs-bind 1 0 _ _ (get_config_map_or-Costs _ name) λ cm. copy_data-Costs cm.content raw)

  raw_config-Costs :
      (config : Option RuntimeConfig)
      → Costs sent (raw_reads config) (process_raw_config p s ns config)
  unfolding process_raw_config
  raw_config-Costs none = Costs-pure []
  raw_config-Costs (some c) =
      Costs-bind (reads_of c.backstage_config_name) (reads_of c.local_db_config_name) _ _
        (add_raw-Costs c.backstage_config_name []) λ raw. add_raw-Costs c.local_db_config_name raw

  get_each-Costs :
      (message : String) (refs : List ObjectKeyRef) (result : StringMap ConfigMap)
      → Costs sent (length refs) (get_each p s ns message refs result)
  unfolding get_each
  get_each-Costs message [] result = Costs-pure result
  get_each-Costs message (ref ∷ refs) result = Costs-more (1 + length refs) _ _ (omega arith) (
      Costs-bind 1 (length refs) _ _ (get_config_map_or-Costs _ ref.name)
        λ cm. get_each-Costs message refs _)

  app_configs-Costs :
      (x : Option AppConfigSpec)
      → Costs sent (length (app_config_refs x)) (process_app_configs p s ns x)
  unfolding process_app_configs
  app_configs-Costs none = Costs-pure []
  app_configs-Costs (some x) = get_each-Costs _ x.config_maps []

  extra_files-Costs :
      (x : Option ExtraFiles) → Costs sent (length (file_refs x)) (process_extra_files p s ns x)
  unfolding process_extra_files
  extra_files-Costs none = Costs-pure []
  extra_files-Costs (some x) = get_each-Costs _ x.config_maps []

  extra_envs-Costs :
      (x : Option ExtraEnvs) → Costs sent (length (env_refs x)) (process_extra_envs p s ns x)
  unfolding process_extra_envs
  extra_envs-Costs none = Costs-pure []
  extra_envs-Costs (some x) = get_each-Costs _ x.config_maps []

  plugins-Costs : (name : String) → Costs sent (reads_of name) (process_dynamic_plugins p s ns name)
  unfolding process_dynamic_plugins
  plugins-Costs name =
      Costs-branch 0 1 (name == "") _ _ (Costs-pure _) (get_config_map_or-Costs _ name)

  preprocess-Costs :
      (spec : BackstageSpec) → Costs sent (named_config_maps spec) (preprocess p s ns spec)
  unfolding preprocess named_config_maps
  preprocess-Costs spec =
      let app = application_of spec in
      Costs-bind (raw_reads spec.raw_runtime_config) _ _ _
        (raw_config-Costs spec.raw_runtime_config)
        λ raw.
          Costs-bind (length (app_config_refs app.app_config)) _ _ _
            (app_configs-Costs app.app_config)
            λ app_configs.
              Costs-bind (length (file_refs app.extra_files)) _ _ _
                (extra_files-Costs app.extra_files)
                λ files.
                  Costs-bind (length (env_refs app.extra_envs)) _ _ _
                    (extra_envs-Costs app.extra_envs)
                    λ envs.
                      let last = reads_of app.dynamic_plugins_config_map_name in
                      Costs-more (last + 0) last _ (omega arith) (
                        Costs-bind last 0 _ _ (plugins-Costs app.dynamic_plugins_config_map_name)
                          λ plugins. Costs-pure _)

-- preprocessSpec reads each ConfigMap that the spec names at most once for each time that it is
-- named.
pub preprocess_spec-Costs :
    (p : Platform) (s : Server) (b : Backstage)
    → Costs sent (named_config_maps b.spec) (preprocess_spec p s b)
unfolding preprocess_spec
preprocess_spec-Costs p s b = preprocess-Costs p s b.meta.namespace b.spec
