-- ===== src/Model/SecretFiles.antt =====
-- pkg/model/secretfiles.go: extra files from Secrets. Each entry has to name a key.
pub mod Keys
use janus_idp_operator.Prelude.{
  String, Bool, true, false, none, some, List, [], ◌∷◌, ◌==◌, ◌^◌, if◌then◌else◌,
}
use janus_idp_operator.GoError.{Outcome, ok, err, errorf, panic, ◌>>=◌}
use janus_idp_operator.Kube.{Workload, zero_meta}
use janus_idp_operator.Api.{BackstageSpec, ObjectKeyRef}
use janus_idp_operator.Platform.{Platform}
use janus_idp_operator.Utils.{generate_runtime_object_name}
use janus_idp_operator.Utils.PodMutator.{secret_object_kind}
use janus_idp_operator.Model.Objects.{SecretMount, secret_files}
use janus_idp_operator.Model.State.{BackstageModel, Ref, set_runtime_object}
use janus_idp_operator.Model.Pods.{pod_of, mount_in_first, mount_path_or_default}

unfoldable pub add_to_model : SecretMount → Ref → BackstageModel → Outcome (Bool × BackstageModel)
unfolding set_runtime_object
add_to_model b r m = elim b.object [
  | some o ↦ ok (true, set_runtime_object r (secret_files b) m)
  | none ↦ ok (false, m)
]

unfoldable pub set_meta_info : SecretMount → String → Outcome SecretMount
unfolding generate_runtime_object_name
set_meta_info b backstage_name = elim b.object [
  | none ↦ panic
  | some o ↦ ok (record b {
    object = some (record o {
      meta = record o.meta { name = generate_runtime_object_name backstage_name "backstage-files" };
    });
  })
]

module _ (p : Platform) where
  unfoldable pub update_pod : SecretMount → Workload → Outcome Workload
  unfolding mount_in_first
  update_pod b w = elim b.object [
    | none ↦ panic
    | some s ↦
        mount_in_first p secret_object_kind s.meta.name b.mount_path b.key s.string_data
          (pod_of w).containers w
  ]

  -- The secret that stands for an entry of the spec: the operator does not read secrets.
  abbrev pub mount_of : String → ObjectKeyRef → SecretMount
  mount_of mp sec = record {
    object = some (record {
      meta = record zero_meta { name = sec.name };
      string_data = some ((sec.key, "") ∷ []);
    });
    mount_path = mp;
    key = sec.key;
  }

  unfoldable pub add_each : String → List ObjectKeyRef → Workload → Outcome Workload
  unfolding update_pod
  add_each mp [] w = ok w
  add_each mp (sec ∷ secs) w =
      let mounted : Outcome Workload = update_pod (mount_of mp sec) w >>= add_each mp secs in
      if sec.key == ""
      then err (errorf ("key is required to mount extra file with secret " ^ sec.name))
      else mounted

  unfoldable pub add_secret_files : BackstageSpec → Workload → Outcome Workload
  unfolding add_each
  add_secret_files spec w = elim spec.application [
    | none ↦ ok w
    | some app ↦ elim app.extra_files [
      | none ↦ ok w
      | some s ↦ add_each (mount_path_or_default s.mount_path) s.secrets w
    ]
  ]

-- validate has nothing to do.
abbrev pub validate : BackstageModel → Outcome BackstageModel
validate m = ok m
