-- ===== src/Examples/Models.antt =====
-- The model on the small configuration.
use mathlib.Core.List.{filter, Perm}
use janus_idp_operator.Prelude.{
  String, true, false, pos, none, some, [], ◌∷◌, ◌++◌, map, ◌≡◌, ◌==◌, refl, eq_iff, arith,
  if◌then◌else◌,
}
use janus_idp_operator.StringMap.{StringMap, lookup, keys}
use janus_idp_operator.GoError.{ok, panic}
use janus_idp_operator.Kube.{zero_secret, zero_config_map}
use janus_idp_operator.Api.{is_route_enabled, is_auth_secret_specified, is_local_db_enabled}
use janus_idp_operator.Platform.{Platform}
use janus_idp_operator.Utils.{made, set_kube_labels}
use janus_idp_operator.Utils.Labels.{lookup-set_kube_labels}
use janus_idp_operator.Utils.PodMutator.{mount_files_from, file_mount, config_map_object_kind}
use janus_idp_operator.Utils.PodMutator.Laws.{dec_selected, mount_files_from-perm}
use janus_idp_operator.Model.Objects.{
  db_secret, db_service, backstage_route, backstage_deployment, config_map_envs_factory,
  config_map_files_factory,
}
use janus_idp_operator.Model.State.{BackstageModel, store}
use janus_idp_operator.Model.Pods.{pod_of}
use janus_idp_operator.Model.BackstageRoute
use janus_idp_operator.Model.BackstageRoute.{set_route}
use janus_idp_operator.Model.BackstageRoute.FromSpec.{IsFull}
use janus_idp_operator.Examples.{sample-VisitsAll}
use janus_idp_operator.Kube.{ConfigMap}
use janus_idp_operator.Api.{RouteSpec}
use janus_idp_operator.Model.DbSecret
use janus_idp_operator.Model.DbSecret.Credentials.{Describes, validate-Describes}
use janus_idp_operator.Model.DynamicPlugins
use janus_idp_operator.Model.DynamicPlugins.{dynamic_plugins_file}
use janus_idp_operator.Model.SecretFiles
use janus_idp_operator.Model.SecretFiles.Keys.{KeysDecide, first_without_key, add_each-keys}
use janus_idp_operator.Model.Runtime.{new_model, less, add_object}
use janus_idp_operator.Model.Runtime.Sorting.{slice_is_sorted, not-slice_is_sorted}
use janus_idp_operator.Model.Runtime.FullRoute.{add_object-full_route}
use janus_idp_operator.Controller.Preprocess.{no_config}
use janus_idp_operator.Examples.{
  sample_platform, sample-VisitsAll, sample_backstage, backstage_of, sample_spec, spec_with_route,
  full_route, sample_workload, sample_service, sample_container,
}

abbrev sample_model : BackstageModel
sample_model = new_model sample_backstage no_config true

abbrev model_with_db : BackstageModel
model_with_db = record (store 4 (db_service (some sample_service)) sample_model) {
  local_db_service = some 4;
}

abbrev two_files : StringMap String
two_files = ("a", "1") ∷ ("b", "2") ∷ []

abbrev image_platform : Platform
image_platform = record sample_platform { getenv = λ name. "quay.io/other" }

abbrev model_with_deployment : BackstageModel
model_with_deployment =
    record (store 6 (backstage_deployment (some sample_workload)) sample_model) {
      backstage_deployment_ref = some 6;
    }

full_route-IsFull : IsFull full_route
full_route-IsFull = (
  λ e. ground (arith, (eq_iff full_route.host "").1 e),
  λ e. ground (arith, (eq_iff full_route.subdomain "").1 e),
  (
    record {
      certificate = "cert";
      external_certificate_secret_name = "";
      key = "key";
      ca_certificate = "";
    },
    refl,
    refl,
  ),
)

lookup-set_kube_labels_example :
    lookup "team" (set_kube_labels (some (("team", "blue") ∷ [])) "bs1") ≡ (
      if "app.kubernetes.io/instance" == "team"
      then some "bs1"
      else if "app.kubernetes.io/name" == "team"
      then some "backstage"
      else lookup "team" (made (some (("team", "blue") ∷ []))))
lookup-set_kube_labels_example = lookup-set_kube_labels (some (("team", "blue") ∷ [])) "bs1" "team"

mount_files_from-perm_example :
    Perm
      (mount_files_from sample_platform
        (pod_of sample_workload)
        sample_container
        config_map_object_kind
        "cm"
        "/mnt"
        "a"
        (some two_files)).1.volume_mounts
      (sample_container.volume_mounts
        ++ map
            (file_mount sample_platform "cm" "/mnt")
            (filter (dec_selected "a") (keys two_files)))
mount_files_from-perm_example =
    mount_files_from-perm sample_platform (pod_of sample_workload) sample_container
      config_map_object_kind "cm" "/mnt" "a" two_files sample-VisitsAll

-- A route with a host and nothing else.
abbrev host_route : RouteSpec
host_route = record { enabled = none; host = "host.example.com"; subdomain = ""; tls = none }

add_object-full_route_example :
    add_object sample_platform
      (backstage_of (spec_with_route full_route))
      true
      (backstage_route none)
      sample_model
    ≡ panic
unfolding is_route_enabled
add_object-full_route_example =
    add_object-full_route sample_platform (backstage_of (spec_with_route full_route)) true
      sample_model full_route refl refl full_route-IsFull refl

validate-Describes_example :
    (creds : StringMap String) × (DbSecret.validate sample_platform
        (some zero_secret)
        3
        sample_spec
        model_with_db
      ≡ ok (
          store 3
            (db_secret (some (record zero_secret { string_data = some creds })))
            model_with_db))
    × Describes sample_platform sample_service (pos 5432) creds
unfolding is_auth_secret_specified is_local_db_enabled
validate-Describes_example =
    validate-Describes sample_platform zero_secret 3 4 sample_spec model_with_db sample_service
      (pos 5432) [] refl refl refl refl refl

abbrev plugins_map : ConfigMap
plugins_map = record zero_config_map { content = some (("dynamic-plugins.yaml", "plugins") ∷ []) }

add_each-keys_example : KeysDecide (first_without_key (record { name = "s"; key = "" } ∷ [])) (
    SecretFiles.add_each sample_platform "/mnt"
      (record { name = "s"; key = "" } ∷ [])
      sample_workload)
add_each-keys_example =
    add_each-keys sample_platform "/mnt" (record { name = "s"; key = "" } ∷ []) sample_workload
      (sample_container, [], refl)

abbrev two_objects : BackstageModel
two_objects = store 1 config_map_envs_factory (store 2 config_map_files_factory sample_model)

not-slice_is_sorted_example : slice_is_sorted (less two_objects) (1 ∷ 2 ∷ []) ≡ false
not-slice_is_sorted_example = not-slice_is_sorted two_objects [] [] 1 2 refl refl
