-- ===== src/Model/ConfigMapFiles.antt =====
-- pkg/model/configmapfiles.go: extra files from ConfigMaps.
use janus_idp_operator.Prelude.{String, Bool, true, false, none, some, List, [], ◌∷◌}
use janus_idp_operator.GoError.{Outcome, ok, panic, ◌>>=◌}
use janus_idp_operator.Kube.{Workload}
use janus_idp_operator.Api.{BackstageSpec, ObjectKeyRef}
use janus_idp_operator.Platform.{Platform}
use janus_idp_operator.Utils.{generate_runtime_object_name}
use janus_idp_operator.Utils.PodMutator.{config_map_object_kind}
use janus_idp_operator.Model.Objects.{ConfigMapMount, config_map_files}
use janus_idp_operator.Model.State.{ExternalConfig, BackstageModel, Ref, set_runtime_object}
use janus_idp_operator.Model.Pods.{pod_of, mount_in_first, config_map_at, mount_path_or_default}

unfoldable pub add_to_model :
    ConfigMapMount → Ref → BackstageModel → Outcome (Bool × BackstageModel)
unfolding set_runtime_object
add_to_model b r m = elim b.object [
  | some o ↦ ok (true, set_runtime_object r (config_map_files b) m)
  | none ↦ ok (false, m)
]

unfoldable pub set_meta_info : ConfigMapMount → String → Outcome ConfigMapMount
unfolding generate_runtime_object_name
set_meta_info b backstage_name = elim b.object [
  | none ↦ panic
  | some o ↦ ok (record b {
    object = some (record o {
      meta = record o.meta { name = generate_runtime_object_name backstage_name "backstage-files" };
    });
  })
]

module _ (p : Platform) where
  unfoldable pub update_pod : ConfigMapMount → Workload → Outcome Workload
  unfolding mount_in_first
  update_pod b w = elim b.object [
    | none ↦ panic
    | some cm ↦
        mount_in_first p config_map_object_kind cm.meta.name b.mount_path b.key cm.content
          (pod_of w).containers w
  ]

  unfoldable pub add_each :
      String → ExternalConfig → List ObjectKeyRef → Workload → Outcome Workload
  unfolding update_pod config_map_at
  add_each mp external [] w = ok w
  add_each mp external (ref ∷ refs) w = do
    w' ←
        update_pod
          (record {
            object = some (config_map_at ref.name external.extra_file_config_maps);
            mount_path = mp;
            key = ref.key;
          })
          w
    add_each mp external refs w'

  unfoldable pub add_config_map_files : BackstageSpec → Workload → ExternalConfig → Outcome Workload
  unfolding add_each
  add_config_map_files spec w external = elim spec.application [
    | none ↦ ok w
    | some app ↦ elim app.extra_files [
      | none ↦ ok w
      | some s ↦ add_each (mount_path_or_default s.mount_path) external s.config_maps w
    ]
  ]

-- validate has nothing to do.
abbrev pub validate : BackstageModel → Outcome BackstageModel
validate m = ok m
