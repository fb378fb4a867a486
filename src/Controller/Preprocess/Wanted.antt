-- ===== src/Controller/Preprocess/Wanted.antt =====
-- What a spec asks of the cluster and of the external configuration.
use janus_idp_operator.Prelude.{
  String, Bool, false, Option, none, some, List, [], ◌∷◌, ◌==◌, ◌||◌, ◌≡◌, All, if◌then◌else◌,
}
use janus_idp_operator.StringMap.{StringMap, lookup}
use janus_idp_operator.GoError.{answered}
use janus_idp_operator.Kube.{ConfigMap, zero_config_map}
use janus_idp_operator.Api.{BackstageSpec, ObjectKeyRef, RuntimeConfig}
use janus_idp_operator.Model.State.{ExternalConfig}
use janus_idp_operator.Controller.Requests.{Server, History}
use janus_idp_operator.Controller.Preprocess.{application_of}
use janus_idp_operator.Controller.Preprocess.Complete.{app_config_refs, file_refs, env_refs}
use janus_idp_operator.Controller.Preprocess.Finds.{Finds, or_else}

-- The ConfigMap of that name is in the cluster: each read of it gives `contents name`.
abbrev pub IsThere : Server → (ns : String) → (String → ConfigMap) → String → Type 0
IsThere s ns contents name =
    ((h : History)
      → s.on_get_config_map h (record { name = name; namespace = ns }) ≡ answered (contents name))
    × ((contents name).meta.name ≡ name)

abbrev pub mentions : List ObjectKeyRef → String → Bool
mentions [] name = false
mentions (ref ∷ refs) name = ref.name == name || mentions refs name

abbrev pub find_text : String → Option (StringMap String) → Option String
find_text key none = none
find_text key (some texts) = lookup key texts

module _ (contents : String → ConfigMap) where
  -- The ConfigMaps of these references, and no others.
  abbrev pub referred : List ObjectKeyRef → String → Option ConfigMap
  referred refs name = if mentions refs name then some (contents name) else none

  abbrev pub raw_value : String → String → Option String
  raw_value name key = if name == "" then none else find_text key (contents name).content

  -- A key of the raw configurations: the local database's come first.
  abbrev pub merged : Option RuntimeConfig → String → Option String
  merged none key = none
  merged (some c) key =
      or_else (raw_value c.local_db_config_name key) (raw_value c.backstage_config_name key)

  abbrev pub plugins_of : String → ConfigMap
  plugins_of name = if name == "" then zero_config_map else contents name

  -- The external configuration that a spec asks for.
  pub record IsWanted (spec : BackstageSpec) (external : ExternalConfig) : Type 0 where
    pub raw : Finds (merged spec.raw_runtime_config) external.raw_config
    pub app_configs :
        Finds (referred (app_config_refs (application_of spec).app_config)) external.app_configs
    pub extra_files :
        Finds
          (referred (file_refs (application_of spec).extra_files))
          external.extra_file_config_maps
    pub extra_envs :
        Finds (referred (env_refs (application_of spec).extra_envs)) external.extra_env_config_maps
    pub plugins :
        external.dynamic_plugins ≡ plugins_of (application_of spec).dynamic_plugins_config_map_name

  module _ (s : Server) (ns : String) where
    abbrev pub IsThereUnlessEmpty : String → Type 0
    IsThereUnlessEmpty name = (name == "") ≡ false → IsThere s ns contents name

    abbrev pub AllThere : List ObjectKeyRef → Type 0
    AllThere = All (λ ref. IsThere s ns contents ref.name)

    abbrev pub RawThere : Option RuntimeConfig → Type 0
    RawThere none = Unit
    RawThere (some c) =
        IsThereUnlessEmpty c.backstage_config_name × IsThereUnlessEmpty c.local_db_config_name

    -- Every ConfigMap that the spec names is in the cluster.
    pub record SpecThere (spec : BackstageSpec) : Type 0 where
      pub raw : RawThere spec.raw_runtime_config
      pub app_configs : AllThere (app_config_refs (application_of spec).app_config)
      pub extra_files : AllThere (file_refs (application_of spec).extra_files)
      pub extra_envs : AllThere (env_refs (application_of spec).extra_envs)
      pub plugins : IsThereUnlessEmpty (application_of spec).dynamic_plugins_config_map_name
