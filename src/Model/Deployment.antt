-- ===== src/Model/Deployment.antt =====
-- pkg/model/deployment.go: the Backstage deployment, which the other objects contribute to.
pub mod FromApplication
use janus_idp_operator.Prelude.{
  String, ℤ, Bool, true, ◌^◌, Option, none, some, List, [], ◌∷◌, ◌++◌, map, non_empty,
  if◌then◌else◌,
}
use janus_idp_operator.GoError.{Outcome, ok, err, errorf, panic, ◌>>=◌}
use janus_idp_operator.Kube.{Container, PodSpec, Workload}
use janus_idp_operator.Api.{Application, BackstageSpec, Env, ExtraEnvs}
use janus_idp_operator.Platform.{Platform}
use janus_idp_operator.Utils.{generate_runtime_object_name}
use janus_idp_operator.Utils.PodMutator.{secret_object_kind}
use janus_idp_operator.Model.Objects.{
  RuntimeObject, backstage_deployment, app_config, config_map_envs, config_map_files,
  dynamic_plugins, secret_envs, secret_files,
}
use janus_idp_operator.Model.State.{BackstageModel, Ref, load, store, set_runtime_object}
use janus_idp_operator.Model.Pods.{
  pod_of, with_pod, change_container, add_envs_to_first, label_workload, backstage_app_label,
  backstage_image_env_var,
}
use janus_idp_operator.Model.DbStatefulSet.{set_image_of, secret_of}
use janus_idp_operator.Model.AppConfig
use janus_idp_operator.Model.ConfigMapEnvs
use janus_idp_operator.Model.ConfigMapFiles
use janus_idp_operator.Model.DynamicPlugins
use janus_idp_operator.Model.SecretEnvs
use janus_idp_operator.Model.SecretFiles

unfoldable pub deployment_name : String → String
unfolding generate_runtime_object_name
deployment_name backstage_name = generate_runtime_object_name backstage_name "backstage"

-- for i := range InitContainers { InitContainers[i].Image = image }
abbrev pub set_init_images : String → Workload → Workload
set_init_images image w =
    with_pod w
      (record (pod_of w) { init_containers = map (set_image_of image) (pod_of w).init_containers })

module _ (p : Platform) where
  unfoldable pub override_image : Workload → Outcome Workload
  unfolding change_container
  override_image w =
      if non_empty (p.getenv backstage_image_env_var)
      then (change_container (set_image_of (p.getenv backstage_image_env_var)) w >>= λ w'.
          ok (set_init_images (p.getenv backstage_image_env_var) w'))
      else ok w

  unfoldable pub add_to_model :
      Option Workload → Ref → BackstageModel → Outcome (Bool × BackstageModel)
  unfolding set_runtime_object override_image
  add_to_model none r m = err (
      errorf
        "Backstage Deployment is not initialized, make sure there is deployment.yaml in default or raw configuration")
  add_to_model (some w) r m = do
    w' ← override_image w
    ok (
      true,
      store r (backstage_deployment (some w')) (
          set_runtime_object r (backstage_deployment (some w))
            (record m { backstage_deployment_ref = some r })),
    )

unfoldable pub set_meta_info : Option Workload → String → Outcome (Option Workload)
unfolding deployment_name label_workload
set_meta_info none backstage_name = panic
set_meta_info (some w) backstage_name = do
  w' ←
      label_workload backstage_app_label ("backstage-" ^ backstage_name)
        (record w { meta = record w.meta { name = deployment_name backstage_name } })
  ok (some w')

unfoldable pub set_replicas : Option ℤ → Workload → Workload
set_replicas none w = w
set_replicas (some n) w = record w { replicas = some n }

unfoldable pub visit_containers : (Container → Container) → PodSpec → PodSpec
visit_containers visitor s = record s {
  init_containers = map visitor s.init_containers;
  containers = map visitor s.containers;
  ephemeral_containers = map visitor s.ephemeral_containers;
}

unfoldable pub set_image : Option String → Workload → Workload
unfolding visit_containers
set_image none w = w
set_image (some image) w = with_pod w (visit_containers (set_image_of image) (pod_of w))

abbrev pub append_env : Env → Container → Container
append_env e c = record c {
  env = c.env ++ record { name = e.name; value = e.value; value_from = none } ∷ [];
}

unfoldable pub add_container_env_var : Env → Workload → Outcome Workload
unfolding change_container
add_container_env_var e = change_container (append_env e)

unfoldable pub add_envs : List Env → Workload → Outcome Workload
unfolding add_container_env_var
add_envs [] w = ok w
add_envs (e ∷ envs) w = add_container_env_var e w >>= add_envs envs

unfoldable pub add_extra_envs : Option ExtraEnvs → Workload → Outcome Workload
unfolding add_envs
add_extra_envs none w = ok w
add_extra_envs (some x) w = add_envs x.envs w

unfoldable pub set_image_pull_secrets : List String → Workload → Workload
set_image_pull_secrets [] w = w
set_image_pull_secrets (ps ∷ pull_secrets) w = set_image_pull_secrets pull_secrets (
    with_pod w
      (record (pod_of w) { image_pull_secrets = (pod_of w).image_pull_secrets ++ ps ∷ [] }))

-- The first block of validate: if backstage.Spec.Application != nil { … }
unfoldable pub apply_application : Option Application → Workload → Outcome Workload
unfolding set_replicas set_image_pull_secrets set_image add_extra_envs
apply_application none w = ok w
apply_application (some app) w = add_extra_envs app.extra_envs (
    set_image app.image
      (set_image_pull_secrets app.image_pull_secrets (set_replicas app.replicas w)))

module _ (p : Platform) where
  -- bs, ok := bso.(BackstagePodContributor); ok → bs.updatePod(deployment)
  unfoldable pub contribute : RuntimeObject → Workload → Outcome Workload
  unfolding AppConfig.update_pod ConfigMapEnvs.update_pod ConfigMapFiles.update_pod
      DynamicPlugins.update_pod SecretEnvs.update_pod SecretFiles.update_pod
  contribute (app_config b) w = AppConfig.update_pod p b w
  contribute (config_map_envs b) w = ConfigMapEnvs.update_pod b w
  contribute (config_map_files b) w = ConfigMapFiles.update_pod p b w
  contribute (dynamic_plugins b) w = DynamicPlugins.update_pod p b w
  contribute (secret_envs b) w = SecretEnvs.update_pod b w
  contribute (secret_files b) w = SecretFiles.update_pod p b w
  contribute _ w = ok w

  -- for _, bso := range model.RuntimeObjects { … }
  unfoldable pub contribute_each : BackstageModel → List Ref → Workload → Outcome Workload
  unfolding contribute load
  contribute_each m [] w = ok w
  contribute_each m (q ∷ qs) w = do o ← load m q; w' ← contribute o w; contribute_each m qs w'

  unfoldable pub add_db_secret : BackstageModel → Workload → Outcome Workload
  unfolding add_envs_to_first load
  add_db_secret m w = elim m.local_db_secret [
    | none ↦ ok w
    | some q ↦ do
      o ← load m q
      s ← secret_of o
      add_envs_to_first secret_object_kind s.meta.name "" w
  ]

  -- What validate makes of b.deployment.
  unfoldable pub finish : Workload → BackstageSpec → BackstageModel → Outcome Workload
  unfolding apply_application contribute_each AppConfig.add_app_configs
      ConfigMapFiles.add_config_map_files ConfigMapEnvs.add_config_map_envs
      SecretFiles.add_secret_files SecretEnvs.add_secret_envs DynamicPlugins.add_dynamic_plugins
      add_db_secret
  finish w₀ spec m = do
    w₁ ← apply_application spec.application w₀
    w₂ ← contribute_each m m.runtime_objects w₁
    w₃ ← AppConfig.add_app_configs p spec w₂ m.external_config
    w₄ ← ConfigMapFiles.add_config_map_files p spec w₃ m.external_config
    w₅ ← ConfigMapEnvs.add_config_map_envs spec w₄ m.external_config
    w₆ ← SecretFiles.add_secret_files p spec w₅
    w₇ ← SecretEnvs.add_secret_envs spec w₆
    w₈ ← DynamicPlugins.add_dynamic_plugins p spec w₇ m.external_config
    add_db_secret m w₈

  -- A deployment in the model is not nil: addToModel has refused that.
  unfoldable pub validate :
      Option Workload → Ref → BackstageSpec → BackstageModel → Outcome BackstageModel
  unfolding finish
  validate none r spec m = panic
  validate (some w) r spec m = do
    w' ← finish w spec m
    ok (store r (backstage_deployment (some w')) m)
