-- ===== src/Matchers/Pods.antt =====
-- The matchers on what the operator makes of a pod.
use mathlib.Core.List.{Mem, mem-append_right, mem-map_of_mem, mem-filter_of_mem'}
use mathlib.Core.List.Perm
use janus_idp_operator.Prelude.{
  String, Bool, true, false, ◌||◌, ◌++◌, none, some, [], ◌∷◌, ◌==◌, ◌≡◌, refl, ap, eq_iff,
  Bool-cases, inl, inr, if◌then◌else◌,
}
use janus_idp_operator.Prelude.Search.{any-snoc, any_of_hit}
use janus_idp_operator.StringMap.{StringMap, keys}
use janus_idp_operator.GoError.{ok}
use janus_idp_operator.Kube.{Container, PodSpec, EnvVar, EnvFromSource}
use janus_idp_operator.Platform.{Platform, VisitsAll}
use janus_idp_operator.Utils.PodMutator.{
  ObjectKind, add_env_vars_from, env_from_source, env_var_source, mount_files_from, file_mount,
}
use janus_idp_operator.Utils.PodMutator.Laws.{dec_selected, mount_files_from-perm}
use janus_idp_operator.Utils.{generate_volume_name_from_cm_or_secret}
use janus_idp_operator.Matchers.{
  text, match_value, be_mounted_to_container, be_added_as_volume_to_pod_spec,
  be_env_from_for_container, be_env_var_for_container, is_ref,
}

same_text : (s : String) → (s == s) ≡ true
same_text s = (eq_iff s s).1 refl

abbrev kind_named : Bool → ObjectKind
kind_named of_config_map = if of_config_map then "ConfigMap" else "Secret"

env_from_source-refers :
    (of_config_map : Bool) (name : String)
    → (is_ref (env_from_source (kind_named of_config_map) name).secret_ref name
        || is_ref (env_from_source (kind_named of_config_map) name).config_map_ref name)
      ≡ true
unfolding env_from_source
env_from_source-refers true name = same_text name
env_from_source-refers false name = rw (same_text name) refl

-- A source of all variables of a ConfigMap or of a secret.
abbrev pub FromObject : Bool → String → EnvFromSource → Type 0
FromObject true object_name ef = (ef.config_map_ref ≡ some object_name) × (ef.secret_ref ≡ none)
FromObject false object_name ef = (ef.secret_ref ≡ some object_name) × (ef.config_map_ref ≡ none)

-- A source of one variable: the key of its name in a ConfigMap or in a secret.
abbrev pub FromKey : Bool → (object_name var_name : String) → EnvVar → Type 0
FromKey true object_name var_name ev =
    (ev.name ≡ var_name)
    × (ev.value_from
        ≡ some (record {
          config_map_key_ref = some (record { name = object_name; key = var_name });
          secret_key_ref = none;
        }))
FromKey false object_name var_name ev =
    (ev.name ≡ var_name)
    × (ev.value_from
        ≡ some (record {
          config_map_key_ref = none;
          secret_key_ref = some (record { name = object_name; key = var_name });
        }))

-- The container c' has all of c, and one source more: of all variables of the object if no variable
-- is named, and else of the variable of that name. It passes the test for it.
abbrev pub TakesFrom :
    Bool → (object_name var_name : String) → (whole : Bool) → Container → Container → Type 0
TakesFrom of_config_map object_name var_name true c c' =
    ((ef : EnvFromSource) × (c' ≡ record c { env_from = c.env_from ++ ef ∷ [] })
      × FromObject of_config_map object_name ef)
    × (match_value (be_env_from_for_container c') (text object_name) ≡ ok true)
TakesFrom of_config_map object_name var_name false c c' =
    ((ev : EnvVar) × (c' ≡ record c { env = c.env ++ ev ∷ [] })
      × FromKey of_config_map object_name var_name ev)
    × (match_value (be_env_var_for_container c') (text var_name) ≡ ok true)

env_from_source-FromObject :
    (of_config_map : Bool) (object_name : String)
    → FromObject of_config_map object_name (env_from_source (kind_named of_config_map) object_name)
unfolding env_from_source
env_from_source-FromObject true object_name = (refl, refl)
env_from_source-FromObject false object_name = (refl, refl)

env_var_source-FromKey :
    (of_config_map : Bool) (object_name var_name : String)
    → FromKey of_config_map object_name var_name (record {
      name = var_name;
      value = "";
      value_from = some (env_var_source (kind_named of_config_map) object_name var_name);
    })
unfolding env_var_source
env_var_source-FromKey true object_name var_name = (refl, refl)
env_var_source-FromKey false object_name var_name = (refl, refl)

-- AddEnvVarsFrom on a ConfigMap or a secret adds one source to the container and keeps all else:
-- without a variable's name the source of all variables of the object, and with one a variable of
-- that name from the key of that name in the object. The source refers to a ConfigMap for the kind
-- ConfigMap and to a secret for the kind Secret, and not to the other. The container passes the
-- test that the integration tests make for it.
pub add_env_vars_from-matches :
    (c : Container) (of_config_map : Bool) (object_name var_name : String)
    → TakesFrom of_config_map object_name var_name
        (var_name == "")
        c
        (add_env_vars_from c (if of_config_map then "ConfigMap" else "Secret") object_name var_name)
unfolding match_value be_env_from_for_container be_env_var_for_container add_env_vars_from
add_env_vars_from-matches c of_config_map object_name var_name =
    elim (Bool-cases (var_name == "")) [
      | inl whole ↦ rw whole (
        (_, refl, env_from_source-FromObject of_config_map object_name),
        ap (λ b. ok b)
            (any-snoc
              (λ ef. is_ref ef.secret_ref object_name || is_ref ef.config_map_ref object_name)
              c.env_from (env_from_source (kind_named of_config_map) object_name)
              (env_from_source-refers of_config_map object_name)),
      )
      | inr one ↦ rw one (
        (_, refl, env_var_source-FromKey of_config_map object_name var_name),
        ap (λ b. ok b) (any-snoc (λ ev. ev.name == var_name) c.env _ (same_text var_name)),
      )
    ]

-- MountFilesFrom passes the tests that the integration tests make: the pod has the volume of the
-- object, and in the container each key that the file name selects is mounted under the mount
-- path, in whatever order the keys are visited.
pub mount_files_from-matches :
    (p : Platform) (s : PodSpec) (c : Container) (kind : ObjectKind)
    (object_name mount_path file_name : String) (m : StringMap String) (key : String)
    → VisitsAll p
    → Mem key (keys m)
    → (file_name == "" || file_name == key) ≡ true
    → (match_value
          (be_added_as_volume_to_pod_spec
            (mount_files_from p s c kind object_name mount_path file_name (some m)).0)
          (text (generate_volume_name_from_cm_or_secret object_name))
        ≡ ok true)
      × (match_value
            (be_mounted_to_container
              (mount_files_from p s c kind object_name mount_path file_name (some m)).1)
            (text (p.join (mount_path ∷ key ∷ [])))
          ≡ ok true)
unfolding match_value be_mounted_to_container be_added_as_volume_to_pod_spec mount_files_from
mount_files_from-matches p s c kind object_name mount_path file_name m key visits there selected = (
  ap (λ b. ok b)
      (any-snoc (λ v. v.name == generate_volume_name_from_cm_or_secret object_name) s.volumes _
        (same_text (generate_volume_name_from_cm_or_secret object_name))),
  ap (λ b. ok b)
      (any_of_hit (λ vm. vm.mount_path == p.join (mount_path ∷ key ∷ [])) _
        (file_mount p object_name mount_path key)
        (Perm.subset
          (Perm.symm (mount_files_from-perm p s c kind object_name mount_path file_name m visits))
          (file_mount p object_name mount_path key)
          (mem-append_right c.volume_mounts (
            mem-map_of_mem (file_mount p object_name mount_path)
              (mem-filter_of_mem' (dec_selected file_name) (keys m) there selected))))
        (same_text (p.join (mount_path ∷ key ∷ [])))),
)
