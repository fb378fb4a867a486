-- ===== src/Controller/Preprocess/Answered.antt =====
-- The external configuration of a spec whose ConfigMaps are all in the cluster.
use janus_idp_operator.Prelude.{
  String, Bool-cases, inl, inr, Option, none, some, List, [], ◌∷◌, ◌==◌, ◌≡◌, refl, arith, eq_iff,
}
use janus_idp_operator.Prelude.Counting.{length}
use janus_idp_operator.StringMap.{StringMap, lookup, insert, keys}
use janus_idp_operator.StringMap.Laws.{lookup-insert}
use janus_idp_operator.GoError.{Gives}
use janus_idp_operator.Kube.{ConfigMap}
use janus_idp_operator.Api.{
  AppConfigSpec, Backstage, ExtraEnvs, ExtraFiles, ObjectKeyRef, RuntimeConfig,
}
use janus_idp_operator.Platform.{Platform, VisitsAll, raw_config}
use janus_idp_operator.Controller.Requests.{Server, History, send_get_config_map}
use janus_idp_operator.Controller.Preprocess.{
  application_of, copy_data, add_raw, process_raw_config, process_app_configs, process_extra_files,
  process_extra_envs, process_dynamic_plugins, preprocess, preprocess_spec, get_each,
  get_config_map_or,
}
use janus_idp_operator.Controller.Preprocess.Complete.{app_config_refs, file_refs, env_refs}
use janus_idp_operator.Controller.Preprocess.Wanted.{
  AllThere, RawThere, IsThereUnlessEmpty, SpecThere, IsWanted, find_text, referred, raw_value,
  merged, plugins_of,
}
use janus_idp_operator.Controller.Exec.Returns.{Gives-continue}
use janus_idp_operator.Controller.Preprocess.Finds.{Finds, or_else, Gives-Finds, lookup-copy_each}

module _ (contents : String → ConfigMap) (s : Server) (ns : String) (p : Platform) where
  get_each-Gives :
      (message : String) (refs : List ObjectKeyRef) (result : StringMap ConfigMap) (h : History)
      → AllThere contents s ns refs
      → Gives
          (Finds (λ name. or_else (referred contents refs name) (lookup name result)))
          (get_each p s ns message refs result h).0
  unfolding get_each get_config_map_or send_get_config_map
  get_each-Gives message [] result h there = λ name. refl
  get_each-Gives message (ref ∷ refs) result h ((found, same_name), there) =
      let cm = contents ref.name in
      rw (found h) (
        Gives-Finds
          (λ name.
            or_else (referred contents refs name) (lookup name (insert cm.meta.name cm result)))
          _ _
          (λ name.
            ground
              (arith, lookup-insert cm.meta.name cm name result, same_name, eq_iff ref.name name))
          (get_each-Gives message refs (insert cm.meta.name cm result) _ there))

  -- A loop that starts from an empty map.
  get_each-referred :
      (message : String) (refs : List ObjectKeyRef) (h : History)
      → AllThere contents s ns refs
      → Gives (Finds (referred contents refs)) (get_each p s ns message refs [] h).0
  unfolding lookup
  get_each-referred message refs h there =
      Gives-Finds (λ name. or_else (referred contents refs name) none) _ _ (λ name. ground arith)
        (get_each-Gives message refs [] h there)

  app_configs-Gives :
      (x : Option AppConfigSpec) (h : History)
      → AllThere contents s ns (app_config_refs x)
      → Gives (Finds (referred contents (app_config_refs x))) (process_app_configs p s ns x h).0
  unfolding process_app_configs lookup
  app_configs-Gives none h there = λ name. refl
  app_configs-Gives (some x) h there = get_each-referred _ x.config_maps h there

  extra_files-Gives :
      (x : Option ExtraFiles) (h : History)
      → AllThere contents s ns (file_refs x)
      → Gives (Finds (referred contents (file_refs x))) (process_extra_files p s ns x h).0
  unfolding process_extra_files lookup
  extra_files-Gives none h there = λ name. refl
  extra_files-Gives (some x) h there = get_each-referred _ x.config_maps h there

  extra_envs-Gives :
      (x : Option ExtraEnvs) (h : History)
      → AllThere contents s ns (env_refs x)
      → Gives (Finds (referred contents (env_refs x))) (process_extra_envs p s ns x h).0
  unfolding process_extra_envs lookup
  extra_envs-Gives none h there = λ name. refl
  extra_envs-Gives (some x) h there = get_each-referred _ x.config_maps h there

  plugins-Gives :
      (name : String) (h : History)
      → IsThereUnlessEmpty contents s ns name
      → Gives (λ cm. cm ≡ plugins_of contents name) (process_dynamic_plugins p s ns name h).0
  unfolding process_dynamic_plugins get_config_map_or send_get_config_map
  plugins-Gives name h there = elim (Bool-cases (name == "")) [
    | inl e ↦ rw e refl
    | inr e ↦ rw (e, (there e).0 h) refl
  ]

  module _ (visits : VisitsAll p) where
    copy_data-Gives :
        (content : Option (StringMap String)) (raw : StringMap String) (h : History)
        → Gives
            (Finds (λ key. or_else (find_text key content) (lookup key raw)))
            (copy_data p s ns content raw h).0
    copy_data-Gives none raw h = λ key. refl
    copy_data-Gives (some src) raw h =
        λ key. lookup-copy_each src _ raw key (visits raw_config (length h) (keys src))

    add_raw-Gives :
        (name : String) (raw : StringMap String) (h : History)
        → IsThereUnlessEmpty contents s ns name
        → Gives
            (Finds (λ key. or_else (raw_value contents name key) (lookup key raw)))
            (add_raw p s ns name raw h).0
    unfolding add_raw get_config_map_or send_get_config_map
    add_raw-Gives name raw h there = elim (Bool-cases (name == "")) [
      | inl e ↦ rw e (λ key. refl)
      | inr e ↦ rw (e, (there e).0 h) (copy_data-Gives (contents name).content raw _)
    ]

    raw-Gives :
        (config : Option RuntimeConfig) (h : History)
        → RawThere contents s ns config
        → Gives (Finds (merged contents config)) (process_raw_config p s ns config h).0
    unfolding process_raw_config lookup
    raw-Gives none h there = λ key. refl
    raw-Gives (some c) h (first, second) =
        Gives-continue _ (add_raw p s ns c.backstage_config_name [] h).0 _ _
          (add_raw-Gives c.backstage_config_name [] h first)
          λ raw holds.
            Gives-Finds _ (merged contents (some c)) _ (λ key. ground (arith, holds key))
              (add_raw-Gives c.local_db_config_name raw _ second)

-- If every ConfigMap that the spec names is in the cluster, preprocessSpec succeeds, and the
-- external configuration is the one that the spec asks for: for app-configs, extra files and extra
-- variables it has the ConfigMaps that the spec lists for that purpose, under their names, and no
-- others; the raw configuration has the keys of the two ConfigMaps, in whatever order these are
-- visited, where the local database's ConfigMap overrides the other; and the dynamic plugins are
-- those of the ConfigMap that the spec names, if it names one.
pub preprocess_spec-Gives :
    (p : Platform) (s : Server) (contents : String → ConfigMap) (b : Backstage) (h : History)
    → VisitsAll p
    → SpecThere contents s b.meta.namespace b.spec
    → Gives (IsWanted contents b.spec) (preprocess_spec p s b h).0
unfolding preprocess_spec preprocess
preprocess_spec-Gives p s contents b h visits there =
    let ns = b.meta.namespace in
    let app = application_of b.spec in
    Gives-continue _ (process_raw_config p s ns b.spec.raw_runtime_config h).0 _ _
      (raw-Gives contents s ns p visits b.spec.raw_runtime_config h there.raw)
      λ raw e.
        Gives-continue _ (process_app_configs p s ns app.app_config _).0 _ _
          (app_configs-Gives contents s ns p app.app_config _ there.app_configs)
          λ configs e₁.
            Gives-continue _ (process_extra_files p s ns app.extra_files _).0 _ _
              (extra_files-Gives contents s ns p app.extra_files _ there.extra_files)
              λ files e₂.
                Gives-continue _ (process_extra_envs p s ns app.extra_envs _).0 _ _
                  (extra_envs-Gives contents s ns p app.extra_envs _ there.extra_envs)
                  λ envs e₃.
                    Gives-continue _
                      (process_dynamic_plugins p s ns app.dynamic_plugins_config_map_name _).0 _ _
                      (plugins-Gives contents s ns p app.dynamic_plugins_config_map_name _
                        there.plugins)
                      λ plugins e₄. record {
                        raw = e;
                        app_configs = e₁;
                        extra_files = e₂;
                        extra_envs = e₃;
                        plugins = e₄;
                      }
