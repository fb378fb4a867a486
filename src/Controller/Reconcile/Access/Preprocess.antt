-- ===== src/Controller/Reconcile/Access/Preprocess.antt =====
-- preprocessSpec makes granted requests only.
use janus_idp_operator.Prelude.{String, Option, none, some, List, [], ◌∷◌, ◌==◌}
use janus_idp_operator.StringMap.{StringMap}
use janus_idp_operator.GoError.{GoError, wrap, Reply, answered, failed}
use janus_idp_operator.Kube.{ConfigMap}
use janus_idp_operator.Api.{
  BackstageSpec, ObjectKeyRef, RuntimeConfig, AppConfigSpec, ExtraFiles, ExtraEnvs,
}
use janus_idp_operator.Platform.{Platform}
use janus_idp_operator.Controller.Exec.Keeps.{Keeps, Keeps-pure, Keeps-raise, Keeps-if, Keeps-bind}
use janus_idp_operator.Controller.Requests.{Server, History}
use janus_idp_operator.Controller.Preprocess.{
  preprocess, get_config_map_or, or_raise, copy_data, add_raw, process_raw_config, get_each,
  process_app_configs, process_extra_files, process_extra_envs, process_dynamic_plugins,
  application_of,
}
use janus_idp_operator.Controller.Reconcile.Access.{Granted, send_get_config_map-Keeps}

or_raise-Keeps :
    {A : Type 0} {P : History → Type 0} (wrapped : GoError → GoError) (reply : Reply A)
    → Keeps P (or_raise {S = History} wrapped reply)
or_raise-Keeps wrapped (answered a) = Keeps-pure a
or_raise-Keeps wrapped (failed e) = Keeps-raise _

-- The methods of preprocessSpec.
module _ (p : Platform) (s : Server) (ns : String) where
  get_config_map_or-Keeps :
      (message name : String) → Keeps Granted (get_config_map_or p s ns message name)
  unfolding get_config_map_or
  get_config_map_or-Keeps message name =
      Keeps-bind _ _ (send_get_config_map-Keeps s _) λ reply. or_raise-Keeps (wrap message) reply

  copy_data-Keeps :
      (content : Option (StringMap String)) (dst : StringMap String)
      → Keeps Granted (copy_data p s ns content dst)
  copy_data-Keeps none dst = record { after = λ h hs. hs }
  copy_data-Keeps (some src) dst = record { after = λ h hs. hs }

  add_raw-Keeps : (name : String) (raw : StringMap String) → Keeps Granted (add_raw p s ns name raw)
  unfolding add_raw
  add_raw-Keeps name raw =
      Keeps-if (name == "") _ _ (Keeps-pure raw)
        (Keeps-bind _ _ (get_config_map_or-Keeps _ name) λ cm. copy_data-Keeps cm.content raw)

  process_raw_config-Keeps :
      (config : Option RuntimeConfig) → Keeps Granted (process_raw_config p s ns config)
  unfolding process_raw_config
  process_raw_config-Keeps none = Keeps-pure []
  process_raw_config-Keeps (some config) =
      Keeps-bind _ _ (add_raw-Keeps config.backstage_config_name [])
        λ raw. add_raw-Keeps config.local_db_config_name raw

  get_each-Keeps :
      (message : String) (refs : List ObjectKeyRef) (result : StringMap ConfigMap)
      → Keeps Granted (get_each p s ns message refs result)
  unfolding get_each
  get_each-Keeps message [] result = Keeps-pure result
  get_each-Keeps message (ref ∷ refs) result =
      Keeps-bind _ _ (get_config_map_or-Keeps _ _) λ cm. get_each-Keeps message refs _

  process_app_configs-Keeps :
      (x : Option AppConfigSpec) → Keeps Granted (process_app_configs p s ns x)
  unfolding process_app_configs
  process_app_configs-Keeps none = Keeps-pure []
  process_app_configs-Keeps (some x) = get_each-Keeps _ x.config_maps []

  process_extra_files-Keeps : (x : Option ExtraFiles) → Keeps Granted (process_extra_files p s ns x)
  unfolding process_extra_files
  process_extra_files-Keeps none = Keeps-pure []
  process_extra_files-Keeps (some x) = get_each-Keeps _ x.config_maps []

  process_extra_envs-Keeps : (x : Option ExtraEnvs) → Keeps Granted (process_extra_envs p s ns x)
  unfolding process_extra_envs
  process_extra_envs-Keeps none = Keeps-pure []
  process_extra_envs-Keeps (some x) = get_each-Keeps _ x.config_maps []

  process_dynamic_plugins-Keeps :
      (name : String) → Keeps Granted (process_dynamic_plugins p s ns name)
  unfolding process_dynamic_plugins
  process_dynamic_plugins-Keeps name =
      Keeps-if (name == "") _ _ (Keeps-pure _) (get_config_map_or-Keeps _ name)

  pub preprocess-Keeps : (spec : BackstageSpec) → Keeps Granted (preprocess p s ns spec)
  unfolding preprocess
  preprocess-Keeps spec = Keeps-bind _ _ (process_raw_config-Keeps spec.raw_runtime_config) λ raw.
      Keeps-bind _ _ (process_app_configs-Keeps (application_of spec).app_config) λ app_configs.
        Keeps-bind _ _ (process_extra_files-Keeps (application_of spec).extra_files) λ files.
          Keeps-bind _ _ (process_extra_envs-Keeps (application_of spec).extra_envs) λ envs.
            Keeps-bind _ _
              (process_dynamic_plugins-Keeps (application_of spec).dynamic_plugins_config_map_name)
              λ plugins. Keeps-pure _
