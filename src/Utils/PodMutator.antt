-- ===== src/Utils/PodMutator.antt =====
-- pkg/utils/pod-mutator.go. A container is mutated through a pointer into its pod, whose volumes
-- are another field: both functions take the two values and give the two new ones back.
pub mod Laws
use janus_idp_operator.Prelude.{
  String, Bool, true, false, ◌||◌, Option, none, some, List, [], ◌∷◌, ◌++◌, ◌==◌, if◌then◌else◌,
}
use janus_idp_operator.StringMap.{StringMap, keys}
use janus_idp_operator.Kube.{
  PodSpec, Container, Volume, VolumeSource, ObjectVolumeSource, VolumeMount, EnvVar, EnvVarSource,
  EnvFromSource, KeySelector,
}
use janus_idp_operator.Platform.{Platform, mounts}
use janus_idp_operator.Prelude.Counting.{length}
use janus_idp_operator.Utils.{generate_volume_name_from_cm_or_secret}

abbrev pub ObjectKind : Type 0
ObjectKind = String

abbrev pub secret_object_kind : ObjectKind
secret_object_kind = "Secret"

abbrev pub config_map_object_kind : ObjectKind
config_map_object_kind = "ConfigMap"

abbrev pub object_volume_source : String → ObjectVolumeSource
object_volume_source object_name = record {
  object_name = object_name;
  default_mode = some 420;
  is_optional = some false;
}

unfoldable pub volume_source : ObjectKind → String → VolumeSource
volume_source kind object_name =
    if kind == config_map_object_kind
    then record {
      config_map_source = some (object_volume_source object_name);
      secret_source = none;
    }
    else if kind == secret_object_kind
    then record {
      config_map_source = none;
      secret_source = some (object_volume_source object_name);
    }
    else record { config_map_source = none; secret_source = none }

abbrev pub add_mount : VolumeMount → Container → Container
add_mount vm c = record c { volume_mounts = c.volume_mounts ++ vm ∷ [] }

module _ (p : Platform) where
  -- The mount of one file of an object.
  abbrev pub file_mount : String → String → String → VolumeMount
  file_mount vol_name mount_path file = record {
    name = vol_name;
    mount_path = p.join (mount_path ∷ file ∷ []);
    sub_path = file;
    read_only = true;
  }

  -- for file := range data { if fileName == "" || fileName == file { … } }
  unfoldable pub mount_each : String → String → String → List String → Container → Container
  mount_each vol_name mount_path file_name [] c = c
  mount_each vol_name mount_path file_name (file ∷ files) c =
      mount_each vol_name mount_path file_name files (
        if file_name == "" || file_name == file
        then add_mount (file_mount vol_name mount_path file) c
        else c)

  unfoldable pub mount_files_from :
      PodSpec
      → Container
      → ObjectKind
      → (object_name mount_path file_name : String) → Option (StringMap String)
      → PodSpec × Container
  unfolding mount_each
  mount_files_from pod_spec container kind object_name mount_path file_name content = (
    record pod_spec {
      volumes =
          pod_spec.volumes
          ++ record {
            name = generate_volume_name_from_cm_or_secret object_name;
            source = volume_source kind object_name;
          }
            ∷ [];
    },
    elim content [
      | some m ↦
          mount_each (generate_volume_name_from_cm_or_secret object_name) mount_path file_name
            (p.range_order mounts (length pod_spec.volumes) (keys m)) container
      | none ↦
          add_mount
            (record {
              name = generate_volume_name_from_cm_or_secret object_name;
              mount_path = p.join (mount_path ∷ object_name ∷ []);
              sub_path = "";
              read_only = true;
            })
            container
    ],
  )

unfoldable pub env_from_source : ObjectKind → String → EnvFromSource
env_from_source kind object_name =
    if kind == config_map_object_kind
    then record { config_map_ref = some object_name; secret_ref = none }
    else if kind == secret_object_kind
    then record { config_map_ref = none; secret_ref = some object_name }
    else record { config_map_ref = none; secret_ref = none }

unfoldable pub env_var_source : ObjectKind → (object_name var_name : String) → EnvVarSource
env_var_source kind object_name var_name =
    let key_ref : KeySelector = record { name = object_name; key = var_name } in
    if kind == config_map_object_kind
    then record { config_map_key_ref = some key_ref; secret_key_ref = none }
    else if kind == secret_object_kind
    then record { config_map_key_ref = none; secret_key_ref = some key_ref }
    else record { config_map_key_ref = none; secret_key_ref = none }

unfoldable pub add_env_vars_from :
    Container → ObjectKind → (object_name var_name : String) → Container
unfolding env_from_source env_var_source
add_env_vars_from container kind object_name var_name =
    if var_name == ""
    then record container { env_from = container.env_from ++ env_from_source kind object_name ∷ [] }
    else record container {
      env =
          container.env
          ++ record {
            name = var_name;
            value = "";
            value_from = some (env_var_source kind object_name var_name);
          }
            ∷ [];
    }
