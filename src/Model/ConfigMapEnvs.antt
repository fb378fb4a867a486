-- ===== src/Model/ConfigMapEnvs.antt =====
-- pkg/model/configmapenvs.go: environment variables from ConfigMaps.
use janus_idp_operator.Prelude.{String, Bool, true, false, none, some, List, [], ◌∷◌}
use janus_idp_operator.GoError.{Outcome, ok, panic, ◌>>=◌}
use janus_idp_operator.Kube.{Workload}
use janus_idp_operator.Api.{BackstageSpec, ObjectKeyRef}
use janus_idp_operator.Utils.{generate_runtime_object_name}
use janus_idp_operator.Utils.PodMutator.{config_map_object_kind}
use janus_idp_operator.Model.Objects.{ConfigMapRef, config_map_envs}
use janus_idp_operator.Model.State.{ExternalConfig, BackstageModel, Ref, set_runtime_object}
use janus_idp_operator.Model.Pods.{add_envs_to_first, config_map_at}

unfoldable pub add_to_model : ConfigMapRef → Ref → BackstageModel → Outcome (Bool × BackstageModel)
unfolding set_runtime_object
add_to_model b r m = elim b.object [
  | some o ↦ ok (true, set_runtime_object r (config_map_envs b) m)
  | none ↦ ok (false, m)
]

unfoldable pub set_meta_info : ConfigMapRef → String → Outcome ConfigMapRef
unfolding generate_runtime_object_name
set_meta_info b backstage_name = elim b.object [
  | none ↦ panic
  | some o ↦ ok (record b {
    object = some (record o {
      meta = record o.meta { name = generate_runtime_object_name backstage_name "backstage-envs" };
    });
  })
]

unfoldable pub update_pod : ConfigMapRef → Workload → Outcome Workload
unfolding add_envs_to_first
update_pod b w = elim b.object [
  | none ↦ panic
  | some cm ↦ add_envs_to_first config_map_object_kind cm.meta.name b.key w
]

unfoldable pub add_each : ExternalConfig → List ObjectKeyRef → Workload → Outcome Workload
unfolding update_pod config_map_at
add_each external [] w = ok w
add_each external (ref ∷ refs) w = do
  w' ←
      update_pod
        (record {
          object = some (config_map_at ref.name external.extra_env_config_maps);
          key = ref.key;
        })
        w
  add_each external refs w'

unfoldable pub add_config_map_envs : BackstageSpec → Workload → ExternalConfig → Outcome Workload
unfolding add_each
add_config_map_envs spec w external = elim spec.application [
  | none ↦ ok w
  | some app ↦ elim app.extra_envs [ none ↦ ok w | some s ↦ add_each external s.config_maps w ]
]

-- validate has nothing to do.
abbrev pub validate : BackstageModel → Outcome BackstageModel
validate m = ok m
