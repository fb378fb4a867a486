-- ===== src/Model/Returns/Registration.antt =====
-- The first phase of InitObjects returns no error.
use janus_idp_operator.GoError.{Any}
use janus_idp_operator.Prelude.{
  Bool, true, not, ◌&&◌, ◌||◌, Option, none, some, is_some, ◌≡◌, refl, arith, if◌then◌else◌,
  non_empty, subst, sym, ◌∙◌,
}
use janus_idp_operator.GoError.Errless.{Errless, Errless-bind, Errless-if, Errless-option}
use janus_idp_operator.Kube.{Route, Workload}
use janus_idp_operator.Api.{BackstageSpec, is_route_enabled, route_of}
use janus_idp_operator.Platform.{Platform}
use janus_idp_operator.Model.Objects.{
  RuntimeObject, type_code, object, app_config, config_map_envs, config_map_files, db_secret,
  db_service, db_stateful_set, backstage_deployment, dynamic_plugins, backstage_route, secret_envs,
  secret_files, backstage_service,
}
use janus_idp_operator.Model.State.{ExternalConfig, Ref, BackstageModel, store, set_runtime_object}
use janus_idp_operator.Model.Pods.{pod_of, change_container, backstage_image_env_var}
use janus_idp_operator.Model.AppConfig
use janus_idp_operator.Model.ConfigMapEnvs
use janus_idp_operator.Model.ConfigMapFiles
use janus_idp_operator.Model.DbSecret
use janus_idp_operator.Model.DbService
use janus_idp_operator.Model.DbStatefulSet
use janus_idp_operator.Model.DbStatefulSet.{local_db_image_env_var, set_image_of}
use janus_idp_operator.Model.Deployment
use janus_idp_operator.Model.DynamicPlugins
use janus_idp_operator.Model.DynamicPlugins.{plugins_name}
use janus_idp_operator.Model.BackstageRoute
use janus_idp_operator.Model.SecretEnvs
use janus_idp_operator.Model.SecretFiles
use janus_idp_operator.Model.BackstageService
use janus_idp_operator.Model.Methods.{add_to_model}
use janus_idp_operator.Model.Returns.{
  HasInstaller, installer_in, installer_at, IsReady, store-IsReady,
}
use janus_idp_operator.Model.Returns.Pods.{
  change_container-Errless, change_container-returns, installer_of_map,
}
use janus_idp_operator.Model.Returns.Provided.{is_needed}

db_image-Errless : (p : Platform) (w : Workload) → Errless Any (DbStatefulSet.override_image p w)
unfolding DbStatefulSet.override_image
db_image-Errless p w =
    Errless-if Any (non_empty (p.getenv local_db_image_env_var)) _ _
      (λ _. change_container-returns _ w) λ _. tt

-- The image of the environment is set in the init containers too, which keep their names.
image-Errless :
    (p : Platform) (w : Workload)
    → HasInstaller w
    → Errless HasInstaller (Deployment.override_image p w)
unfolding Deployment.override_image
image-Errless p w e =
    let image = p.getenv backstage_image_env_var in
    Errless-if HasInstaller (non_empty image) _ _
      (λ _.
        Errless-bind HasInstaller (change_container (set_image_of image) w) _
          (change_container-Errless (set_image_of image) w e)
          λ w' _ e'.
            installer_of_map (set_image_of image) (pod_of w').init_containers (λ c. refl) ∙ e')
      λ _. e

module _ (local_db : Bool) (external : ExternalConfig) where
  abbrev Ready : BackstageModel → Type 0
  Ready = IsReady local_db external

  abbrev Added : Bool × BackstageModel → Type 0
  Added x = Ready x.1

  -- The pointers and the slice are of no account.
  listed :
      (m m' : BackstageModel)
      → Ready m
      → m'.heap ≡ m.heap
      → m'.local_db_enabled ≡ m.local_db_enabled
      → m'.external_config ≡ m.external_config
      → Ready m'
  listed m m' ready h l c = record {
    installers = λ q. subst (λ heap. installer_at (heap q) ≡ true) (sym h) (ready.installers q);
    setting = l ∙ ready.setting;
    config = c ∙ ready.config;
  }

  module _ (p : Platform) (r : Ref) (m : BackstageModel) (ready : Ready m) where
    route-Errless :
        (b : Option Route) (spec : BackstageSpec)
        → Errless Added (BackstageRoute.add_to_model b r spec m)
    unfolding BackstageRoute.add_to_model set_runtime_object
    route-Errless b spec =
        Errless-if Added ((not (is_some b) && not (is_route_enabled spec)) || not m.is_openshift) _
          _ (λ _. ready)
          λ _.
            let o = backstage_route (
              if is_route_enabled spec
              then BackstageRoute.load_from_spec (route_of spec) b
              else b) in
            listed (store r o m) _ (store-IsReady local_db external m r o refl ready) refl refl refl

    stateful_set-Errless :
        (b : Option Workload)
        → (local_db ≡ true → is_some b ≡ true)
        → Errless Added (DbStatefulSet.add_to_model p b r m)
    unfolding DbStatefulSet.add_to_model set_runtime_object
    stateful_set-Errless none needed =
        Errless-if Added m.local_db_enabled _ _ (λ on. cc (needed (sym ready.setting ∙ on)))
          λ _. ready
    stateful_set-Errless (some w) needed =
        Errless-if Added m.local_db_enabled _ _
          (λ _.
            Errless-bind {P = Any} Added (DbStatefulSet.override_image p w) _ (db_image-Errless p w)
              λ w' _ _.
                store-IsReady local_db external _ r (db_stateful_set (some w')) refl
                  (listed m _ ready refl refl refl))
          λ _. ready

    deployment-Errless :
        (b : Option Workload)
        → installer_in (backstage_deployment b) ≡ true
        → is_some b ≡ true
        → Errless Added (Deployment.add_to_model p b r m)
    unfolding Deployment.add_to_model set_runtime_object
    deployment-Errless none e live = cc live
    deployment-Errless (some w) e live =
        Errless-bind Added (Deployment.override_image p w) _ (image-Errless p w e) λ w' _ e'.
          store-IsReady local_db external _ r (backstage_deployment (some w')) e'
            (listed m _ ready refl refl refl)

    pub add_to_model-Errless :
        (o : RuntimeObject) (spec : BackstageSpec)
        → installer_in o ≡ true
        → (is_needed local_db (type_code o) ≡ true → is_some (object o) ≡ true)
        → Errless Added (add_to_model p o r spec m)
    unfolding add_to_model type_code is_needed object AppConfig.add_to_model
        ConfigMapEnvs.add_to_model ConfigMapFiles.add_to_model DbSecret.add_to_model
        DbService.add_to_model Deployment.add_to_model DynamicPlugins.add_to_model
        SecretEnvs.add_to_model SecretFiles.add_to_model BackstageService.add_to_model
        set_runtime_object
    add_to_model-Errless (app_config b) spec e needed =
        Errless-option Added b.object _ _ (λ _. ready) λ o _. listed m _ ready refl refl refl
    add_to_model-Errless (config_map_envs b) spec e needed =
        Errless-option Added b.object _ _ (λ _. ready) λ o _. listed m _ ready refl refl refl
    add_to_model-Errless (config_map_files b) spec e needed =
        Errless-option Added b.object _ _ (λ _. ready) λ o _. listed m _ ready refl refl refl
    add_to_model-Errless (db_secret none) spec e needed = ready
    add_to_model-Errless (db_secret (some x)) spec e needed =
        Errless-if Added m.local_db_enabled _ _ (λ _. listed m _ ready refl refl refl) λ _. ready
    add_to_model-Errless (db_service none) spec e needed =
        Errless-if Added m.local_db_enabled _ _
          (λ on. cc (needed (ground (arith, sym ready.setting ∙ on)))) λ _. ready
    add_to_model-Errless (db_service (some x)) spec e needed =
        Errless-if Added m.local_db_enabled _ _ (λ _. listed m _ ready refl refl refl) λ _. ready
    add_to_model-Errless (db_stateful_set none) spec e needed =
        stateful_set-Errless none λ on. needed (ground (arith, on))
    add_to_model-Errless (db_stateful_set (some w)) spec e needed =
        stateful_set-Errless (some w) λ on. refl
    add_to_model-Errless (backstage_deployment none) spec e needed = cc (needed refl)
    add_to_model-Errless (backstage_deployment (some w)) spec e needed =
        deployment-Errless (some w) e refl
    add_to_model-Errless (dynamic_plugins b) spec e needed =
        Errless-if Added (not (is_some b) || non_empty (plugins_name spec)) _ _ (λ _. ready)
          λ _. listed m _ ready refl refl refl
    add_to_model-Errless (backstage_route b) spec e needed = route-Errless b spec
    add_to_model-Errless (secret_envs b) spec e needed =
        Errless-option Added b.object _ _ (λ _. ready) λ o _. listed m _ ready refl refl refl
    add_to_model-Errless (secret_files b) spec e needed =
        Errless-option Added b.object _ _ (λ _. ready) λ o _. listed m _ ready refl refl refl
    add_to_model-Errless (backstage_service none) spec e needed = cc (needed refl)
    add_to_model-Errless (backstage_service (some x)) spec e needed =
        listed m _ ready refl refl refl
