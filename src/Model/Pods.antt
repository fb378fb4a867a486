-- ===== src/Model/Pods.antt =====
-- The parts of a workload that several classes change: its first container and its pod's volumes.
use janus_idp_operator.Prelude.{String, Option, List, [], ◌∷◌, none, some, non_empty, if◌then◌else◌}
use janus_idp_operator.StringMap.{StringMap, lookup}
use janus_idp_operator.GoError.{Outcome, ok, panic}
use janus_idp_operator.Kube.{Container, PodSpec, Workload, ConfigMap, zero_config_map}
use janus_idp_operator.Platform.{Platform}
use janus_idp_operator.Model.Objects.{default_mount_dir}
use janus_idp_operator.Utils.{generate_label}
use janus_idp_operator.Utils.PodMutator.{ObjectKind, mount_files_from, add_env_vars_from}

-- w.Spec.Template.Spec = s
abbrev pub with_pod : Workload → PodSpec → Workload
with_pod w s = record w { template = record w.template { spec = s } }

abbrev pub pod_of : Workload → PodSpec
pod_of w = w.template.spec

abbrev pub with_containers : PodSpec → List Container → PodSpec
with_containers s cs = record s { containers = cs }

-- A change of Containers[0]; with no container the index is out of range.
abbrev pub change_first : (Container → Container) → List Container → Outcome (List Container)
change_first f [] = panic
change_first f (c ∷ cs) = ok (f c ∷ cs)

abbrev pub to_pod : Workload → Outcome (List Container) → Outcome Workload
to_pod w (ok cs) = ok (with_pod w (with_containers (pod_of w) cs))
to_pod w _ = panic

unfoldable pub change_container : (Container → Container) → Workload → Outcome Workload
change_container f w = to_pod w (change_first f (pod_of w).containers)

-- MountFilesFrom(&spec, &spec.Containers[0], …)
unfoldable pub mount_in_first :
    Platform
    → ObjectKind
    → (object_name mount_path file_name : String) → Option (StringMap String)
    → List Container
    → Workload
    → Outcome Workload
mount_in_first p kind object_name mount_path file_name content [] w = panic
mount_in_first p kind object_name mount_path file_name content (c ∷ cs) w =
    let (s, c') = mount_files_from p (pod_of w) c kind object_name mount_path file_name content in
    ok (with_pod w (with_containers s (c' ∷ cs)))

-- MountFilesFrom(&spec, &spec.InitContainers[0], …)
unfoldable pub mount_in_first_init :
    Platform
    → ObjectKind
    → (object_name mount_path file_name : String) → Option (StringMap String)
    → List Container
    → Workload
    → Outcome Workload
mount_in_first_init p kind object_name mount_path file_name content [] w = panic
mount_in_first_init p kind object_name mount_path file_name content (c ∷ cs) w =
    let (s, c') = mount_files_from p (pod_of w) c kind object_name mount_path file_name content in
    ok (with_pod w (record s { init_containers = c' ∷ cs }))

-- AddEnvVarsFrom(&spec.Containers[0], …)
unfoldable pub add_envs_to_first :
    ObjectKind → (object_name var_name : String) → Workload → Outcome Workload
unfolding change_container
add_envs_to_first kind object_name var_name =
    change_container (λ c. add_env_vars_from c kind object_name var_name)

-- m[k] of a map from texts to ConfigMaps: the zero ConfigMap where the key is missing.
unfoldable pub config_map_at : String → StringMap ConfigMap → ConfigMap
unfolding lookup
config_map_at k m = elim (lookup k m) [ none ↦ zero_config_map | some cm ↦ cm ]

-- The mount path that the spec gives, or the default where it gives none.
abbrev pub mount_path_or_default : String → String
mount_path_or_default path = if non_empty path then path else default_mount_dir

abbrev pub backstage_image_env_var : String
backstage_image_env_var = "RELATED_IMAGE_backstage"

abbrev pub backstage_app_label : String
backstage_app_label = "backstage.io/app"

-- The two calls of GenerateLabel on a workload: its pods' labels and its selector's. The selector
-- is a pointer.
unfoldable pub label_workload : (name value : String) → Workload → Outcome Workload
unfolding generate_label
label_workload name value w = elim w.selector [
  | none ↦ panic
  | some match_labels ↦ ok (record w {
    selector = some (generate_label match_labels name value);
    template = record w.template { labels = generate_label w.template.labels name value };
  })
]
