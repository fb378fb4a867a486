-- ===== src/Examples/Matched.antt =====
-- The matchers on small pods.
use mathlib.Core.List.{Mem, mem-cons_self}
use janus_idp_operator.Prelude.Search.{any_of_hit}
use janus_idp_operator.Prelude.{
  String, true, false, some, [], ◌∷◌, ◌==◌, ◌≡◌, ◌≢◌, refl, eq_iff, if◌then◌else◌,
}
use janus_idp_operator.GoError.{ok}
use janus_idp_operator.StringMap.{StringMap, keys}
use janus_idp_operator.Kube.{Container, VolumeMount, zero_pod_spec}
use janus_idp_operator.Utils.{generate_volume_name_from_cm_or_secret}
use janus_idp_operator.Utils.PodMutator.{add_env_vars_from, mount_files_from}
use janus_idp_operator.Matchers.{
  text, be_mounted_to_container_matcher, match_value, be_added_as_arg_to_container,
  be_mounted_to_container, be_added_as_volume_to_pod_spec,
}
use janus_idp_operator.Matchers.Deciding.{Decides, match_value-Decides}
use janus_idp_operator.Matchers.Arguments.{match_value-misses_args}
use janus_idp_operator.Matchers.Pods.{
  TakesFrom, add_env_vars_from-matches, mount_files_from-matches,
}
use janus_idp_operator.Examples.{sample_container, sample_platform, sample-VisitsAll}

abbrev sample_mount : VolumeMount
sample_mount = record {
  name = "v";
  mount_path = "/my/mount/path/key11";
  sub_path = "";
  read_only = true;
}

abbrev mounted : Container
mounted = record sample_container { volume_mounts = sample_mount ∷ [] }

match_value-Decides_example :
    Decides
      (be_mounted_to_container_matcher mounted)
      (text "/my/mount/path/key11")
      (match_value (be_mounted_to_container_matcher mounted) (text "/my/mount/path/key11"))
match_value-Decides_example =
    match_value-Decides (be_mounted_to_container_matcher mounted) (text "/my/mount/path/key11")

unmounted : (vm : VolumeMount) → Mem vm mounted.volume_mounts → vm.mount_path ≢ "--config"
unmounted vm m e =
    let found : false ≡ true =
      any_of_hit (λ x. x.mount_path == "--config") mounted.volume_mounts vm m
        ((eq_iff vm.mount_path "--config").1 e) in
    cc found

match_value-misses_args_example :
    (match_value
        (be_added_as_arg_to_container (record mounted { args = "--config" ∷ [] }))
        (text "--config")
      ≡ ok false)
    × (match_value
          (be_added_as_arg_to_container (record mounted { args = [] }))
          (text "/my/mount/path/key11")
        ≡ ok true)
match_value-misses_args_example =
    match_value-misses_args mounted "--config" sample_mount unmounted mem-cons_self

add_env_vars_from-matches_example :
    TakesFrom false "s1" "KEY"
      ("KEY" == "")
      mounted
      (add_env_vars_from mounted (if false then "ConfigMap" else "Secret") "s1" "KEY")
add_env_vars_from-matches_example = add_env_vars_from-matches mounted false "s1" "KEY"

abbrev two_keys : StringMap String
two_keys = ("key11", "1") ∷ ("key12", "2") ∷ []

mount_files_from-matches_example :
    (match_value
        (be_added_as_volume_to_pod_spec
          (mount_files_from sample_platform zero_pod_spec mounted "ConfigMap" "cm" "/m" ""
            (some two_keys)).0)
        (text (generate_volume_name_from_cm_or_secret "cm"))
      ≡ ok true)
    × (match_value
          (be_mounted_to_container
            (mount_files_from sample_platform zero_pod_spec mounted "ConfigMap" "cm" "/m" ""
              (some two_keys)).1)
          (text "/m/key11")
        ≡ ok true)
unfolding keys
mount_files_from-matches_example =
    mount_files_from-matches sample_platform zero_pod_spec mounted "ConfigMap" "cm" "/m" "" two_keys
      "key11" sample-VisitsAll mem-cons_self refl
