-- ===== src/Model/SecretEnvs.antt =====
-- pkg/model/secretenvs.go: environment variables from Secrets.
use janus_idp_operator.Prelude.{String, Bool, true, false, none, some, List, [], ◌∷◌}
use janus_idp_operator.GoError.{Outcome, ok, panic, ◌>>=◌}
use janus_idp_operator.Kube.{Workload, zero_meta}
use janus_idp_operator.Api.{BackstageSpec, ObjectKeyRef}
use janus_idp_operator.Utils.{generate_runtime_object_name}
use janus_idp_operator.Utils.PodMutator.{secret_object_kind}
use janus_idp_operator.Model.Objects.{SecretRef, secret_envs}
use janus_idp_operator.Model.State.{BackstageModel, Ref, set_runtime_object}
use janus_idp_operator.Model.Pods.{add_envs_to_first}

unfoldable pub add_to_model : SecretRef → Ref → BackstageModel → Outcome (Bool × BackstageModel)
unfolding set_runtime_object
add_to_model b r m = elim b.object [
  | some o ↦ ok (true, set_runtime_object r (secret_envs b) m)
  | none ↦ ok (false, m)
]

unfoldable pub set_meta_info : SecretRef → String → Outcome SecretRef
unfolding generate_runtime_object_name
set_meta_info b backstage_name = elim b.object [
  | none ↦ panic
  | some o ↦ ok (record b {
    object = some (record o {
      meta = record o.meta { name = generate_runtime_object_name backstage_name "backstage-envs" };
    });
  })
]

unfoldable pub update_pod : SecretRef → Workload → Outcome Workload
unfolding add_envs_to_first
update_pod b w = elim b.object [
  | none ↦ panic
  | some s ↦ add_envs_to_first secret_object_kind s.meta.name b.key w
]

unfoldable pub add_each : List ObjectKeyRef → Workload → Outcome Workload
unfolding update_pod
add_each [] w = ok w
add_each (sec ∷ secs) w = do
  w' ←
      update_pod
        (record {
          object =
              some (record { meta = record zero_meta { name = sec.name }; string_data = none });
          key = sec.key;
        })
        w
  add_each secs w'

unfoldable pub add_secret_envs : BackstageSpec → Workload → Outcome Workload
unfolding add_each
add_secret_envs spec w = elim spec.application [
  | none ↦ ok w
  | some app ↦ elim app.extra_envs [ none ↦ ok w | some s ↦ add_each s.secrets w ]
]

-- validate has nothing to do.
abbrev pub validate : BackstageModel → Outcome BackstageModel
validate m = ok m
