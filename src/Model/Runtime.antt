-- ===== src/Model/Runtime.antt =====
-- pkg/model/runtime.go: InitObjects makes the model of all runtime objects, in three phases.
pub mod Sorting
pub mod FullRoute
use janus_idp_operator.Prelude.{
  String, Bool, true, false, not, ◌||◌, Option, none, some, List, [], ◌∷◌, ◌^◌, if◌then◌else◌,
}
use janus_idp_operator.StringMap.{lookup}
use janus_idp_operator.GoError.{
  errorf, error_text, has_reason, not_exist, Outcome, ok, err, panic, ◌>>=◌, answered, failed,
}
use janus_idp_operator.Kube.{KubeObject, ObjectMeta, meta_of, set_meta}
use janus_idp_operator.Api.{Backstage, BackstageSpec, is_local_db_enabled}
use janus_idp_operator.Platform.{Platform}
use janus_idp_operator.Utils.{set_kube_labels, read_yaml, read_yaml_file, def_file}
use janus_idp_operator.Model.Objects.{
  RuntimeObject, ObjectFactory, app_config, config_map_envs, config_map_files, db_secret,
  db_service, db_stateful_set, backstage_deployment, dynamic_plugins, backstage_route, secret_envs,
  secret_files, backstage_service, app_config_factory, config_map_envs_factory,
  config_map_files_factory, db_secret_factory, db_service_factory, db_stateful_set_factory,
  backstage_deployment_factory, dynamic_plugins_factory, backstage_route_factory,
  secret_envs_factory, secret_files_factory, backstage_service_factory, object, empty_object,
  set_object,
}
use janus_idp_operator.Model.State.{ExternalConfig, Ref, BackstageModel, load, store, alloc}
pub use janus_idp_operator.Model.Registry.{ObjectConfig, register_config, runtime_config}
use janus_idp_operator.Model.Methods.{add_to_model, validate, set_object_meta_info}

-- less(i, j) of the sort: not (i is the stateful set, or j the deployment)
abbrev pub is_stateful_set : Option RuntimeObject → Bool
is_stateful_set (some (db_stateful_set b)) = true
is_stateful_set _ = false

abbrev pub is_deployment : Option RuntimeObject → Bool
is_deployment (some (backstage_deployment b)) = true
is_deployment _ = false

unfoldable pub less : BackstageModel → Ref → Ref → Bool
less m a b = if is_stateful_set (m.heap a) || is_deployment (m.heap b) then false else true

abbrev pub new_model : Backstage → ExternalConfig → Bool → BackstageModel
new_model backstage external is_openshift = record {
  local_db_enabled = is_local_db_enabled backstage.spec;
  is_openshift = is_openshift;
  backstage_deployment_ref = none;
  backstage_service_ref = none;
  local_db_stateful_set = none;
  local_db_service = none;
  local_db_secret = none;
  route_ref = none;
  runtime_objects = [];
  external_config = external;
  heap = λ r. none;
  next = 0;
}

module _ (p : Platform) where
  -- SetNamespace and SetLabels, then SetControllerReference if the operator owns the objects; an
  -- error of the latter is a panic.
  unfoldable pub complete_meta : Backstage → Bool → ObjectMeta → Outcome ObjectMeta
  unfolding set_kube_labels
  complete_meta backstage owns_runtime meta =
      let meta' : ObjectMeta = record meta {
        namespace = backstage.meta.namespace;
        labels = some (set_kube_labels meta.labels backstage.meta.name);
      } in
      if owns_runtime
      then elim (p.set_controller_reference backstage meta') [
        | answered m ↦ ok m
        | failed e ↦ panic
      ]
      else ok meta'

  -- The function setMetaInfo: the metadata of an object that was added to the model.
  unfoldable pub set_meta_info : Backstage → Bool → RuntimeObject → Outcome RuntimeObject
  unfolding set_object_meta_info complete_meta object set_object
  set_meta_info backstage owns_runtime o = do
    o' ← set_object_meta_info o backstage.meta.name
    elim (object o') [
      | none ↦ panic
      | some k ↦ do
        meta ← complete_meta backstage owns_runtime (meta_of k)
        set_object o' (set_meta meta k)
    ]

  -- The default configuration of an object: the instance, and `obj`, into which an overlay is
  -- decoded. A missing file leaves the instance as the factory made it.
  unfoldable pub load_default : ObjectConfig → Outcome (RuntimeObject × KubeObject)
  unfolding read_yaml_file def_file empty_object set_object has_reason
  load_default conf =
      let new = conf.object_factory in
      elim (read_yaml_file p (def_file p conf.key) (empty_object new)) [
        | ok obj ↦ (set_object new obj >>= λ o. ok (o, obj))
        | err e ↦
            if not (has_reason not_exist e)
            then err (
                errorf (
                  "failed to read default value for the key "
                  ^ conf.key
                  ^ ", reason: "
                  ^ error_text e))
            else ok (new, empty_object new)
        | panic ↦ panic
      ]

  -- The overlay of the raw configuration, where it has the object's key.
  unfoldable pub load_overlay :
      ExternalConfig → ObjectConfig → RuntimeObject → KubeObject → Outcome RuntimeObject
  unfolding read_yaml set_object lookup
  load_overlay external conf o obj = elim (lookup conf.key external.raw_config) [
    | none ↦ ok o
    | some overlay ↦ elim (read_yaml p overlay obj) [
      | ok obj' ↦ set_object o obj'
      | err e ↦ err (
          errorf
            ("failed to read overlay value for the key " ^ conf.key ^ ", reason: " ^ error_text e))
      | panic ↦ panic
    ]
  ]

  -- setMetaInfo on the object at an address
  unfoldable pub set_meta_info_at : Backstage → Bool → Ref → BackstageModel → Outcome BackstageModel
  unfolding set_meta_info load
  set_meta_info_at backstage owns_runtime r m = do
    o ← load m r
    o' ← set_meta_info backstage owns_runtime o
    ok (store r o' m)

  -- The end of the loop's body: addToModel, and setMetaInfo if the object was added.
  unfoldable pub add_object :
      Backstage → Bool → RuntimeObject → BackstageModel → Outcome BackstageModel
  unfolding add_to_model set_meta_info_at
  add_object backstage owns_runtime o m =
      elim (add_to_model p o m.next backstage.spec (alloc o m)) [
        | ok (added, m') ↦
            if added then set_meta_info_at backstage owns_runtime m.next m' else ok m'
        | err e ↦
            err (errorf ("failed to initialize " ^ p.format_object o ^ " reason: " ^ error_text e))
        | panic ↦ panic
      ]

  -- One round of the loop over runtimeConfig.
  unfoldable pub init_object :
      Backstage → Bool → ObjectConfig → BackstageModel → Outcome BackstageModel
  unfolding load_default load_overlay add_object
  init_object backstage owns_runtime conf m = do
    loaded ← load_default conf
    o ← load_overlay m.external_config conf loaded.0 loaded.1
    add_object backstage owns_runtime o m

  unfoldable pub init_each :
      Backstage → Bool → List ObjectConfig → BackstageModel → Outcome BackstageModel
  unfolding init_object
  init_each backstage owns_runtime [] m = ok m
  init_each backstage owns_runtime (conf ∷ confs) m =
      init_object backstage owns_runtime conf m >>= init_each backstage owns_runtime confs

  -- for _, v := range model.RuntimeObjects { v.validate(model, backstage) }
  unfoldable pub validate_each : BackstageSpec → List Ref → BackstageModel → Outcome BackstageModel
  unfolding validate load
  validate_each spec [] m = ok m
  validate_each spec (r ∷ rs) m = do
    o ← load m r
    elim (validate p o r spec m) [
      | ok m' ↦ validate_each spec rs m'
      | err e ↦ err (errorf ("failed object validation, reason: " ^ error_text e))
      | panic ↦ panic
    ]

  unfoldable pub sort_runtime_objects : BackstageModel → BackstageModel
  unfolding less
  sort_runtime_objects m = record m { runtime_objects = p.sort_slice (less m) m.runtime_objects }

  unfoldable pub init_objects :
      Backstage → ExternalConfig → (owns_runtime is_openshift : Bool) → Outcome BackstageModel
  unfolding init_each validate_each sort_runtime_objects is_local_db_enabled
  init_objects backstage external owns_runtime is_openshift = do
    m ← init_each backstage owns_runtime runtime_config (new_model backstage external is_openshift)
    m' ← validate_each backstage.spec m.runtime_objects m
    ok (sort_runtime_objects m')
