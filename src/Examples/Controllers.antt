-- ===== src/Examples/Controllers.antt =====
-- The reconciler on the small cluster.
use janus_idp_operator.Prelude.{true, some, [], ◌∷◌, ◌++◌, ◌≡◌, refl, inl, inr}
use janus_idp_operator.GoError.{ok, OnOk, Gives, external, not_found, has_reason}
use janus_idp_operator.Kube.{zero_secret, secret}
use janus_idp_operator.Api.{Backstage}
use janus_idp_operator.Model.Objects.{db_secret}
use janus_idp_operator.Controller.Requests.{History, create, update_status, get_backstage}
use janus_idp_operator.Controller.Preprocess.{preprocess_spec, application_of}
use janus_idp_operator.Controller.Preprocess.Wanted.{IsWanted}
use janus_idp_operator.Controller.Preprocess.Answered.{preprocess_spec-Gives}
use janus_idp_operator.Controller.Preprocess.Complete.{IsComplete, preprocess_spec-IsComplete}
use janus_idp_operator.Controller.Apply.{apply_object, apply_objects}
use janus_idp_operator.Controller.Apply.Written.{Leaves}
use janus_idp_operator.Controller.Apply.Whole.{AreApplied, apply_objects-Leaves}
use janus_idp_operator.Controller.Apply.Metadata.{IsPatched, patch_object-IsPatched}
use janus_idp_operator.Kube.{KubeObject, ObjectMeta, service, zero_meta, meta_of, set_meta}
use janus_idp_operator.Controller.Apply.{patch_object}
use janus_idp_operator.Controller.Requests.{patch}
use janus_idp_operator.Controller.Clean.Answers.{Deletes, clean_objects-Deletes}
use janus_idp_operator.Examples.{sample_service}
use janus_idp_operator.Controller.Apply.Secrets.{created, apply_object-db_secret}
use janus_idp_operator.Controller.Clean.{clean_objects}
use janus_idp_operator.Controller.Clean.Deletes.{unwanted}
use janus_idp_operator.Controller.Reconcile.{reconcile, reconcile_found}
use janus_idp_operator.Controller.Reconcile.Status.{Reports, reconcile-Reports}
use janus_idp_operator.Controller.Reconcile.Access.{Granted}
use janus_idp_operator.Controller.Reconcile.Access.Whole.{reconcile-Granted}
use janus_idp_operator.Controller.Reconcile.Ignored.{reconcile-ignores}
use janus_idp_operator.Examples.{
  sample_platform, sample-VisitsAll, sample-SetsCondition, sample_backstage, backstage_of,
  external_db_spec, sample_server, empty_server, accepting_server, sample_objects,
  sample_objects-live, stocked_config_map, stocked_server, raw_config_spec, stocked-SpecThere,
  sample_reconciler, sample_request,
}

reconcile-Reports_example :
    (b' : Backstage) × (before : History) × ((reconcile_found sample_platform sample_server
        sample_reconciler sample_backstage []).1
      ≡ before ++ update_status b' ∷ [])
    × Reports
        (reconcile_found sample_platform sample_server sample_reconciler sample_backstage []).0
        b'
reconcile-Reports_example =
    reconcile-Reports sample_platform sample_server sample_reconciler sample_backstage []
      sample-SetsCondition

reconcile-Granted_example :
    Granted (reconcile sample_platform sample_server sample_reconciler sample_request []).1
reconcile-Granted_example =
    reconcile-Granted sample_platform sample_server sample_reconciler sample_request [] tt

reconcile-ignores_example :
    reconcile sample_platform empty_server sample_reconciler sample_request []
    ≡ (ok tt, get_backstage sample_request ∷ [])
unfolding has_reason
reconcile-ignores_example =
    reconcile-ignores sample_platform empty_server sample_reconciler sample_request []
      (inr (external not_found "not found", inl refl, refl, refl))

abbrev in_cluster : KubeObject
in_cluster = service (record sample_service {
  meta = record zero_meta {
    name = "svc";
    labels = some (("team", "blue") ∷ []);
    resource_version = "7";
  };
})

abbrev to_be_sent : KubeObject
to_be_sent = service (record sample_service {
  meta = record zero_meta { name = "svc"; labels = some (("app", "x") ∷ []) };
})

patch_object-IsPatched_example :
    (m : ObjectMeta) × ((patch_object sample_platform sample_server in_cluster to_be_sent []).1
      ≡ patch (set_meta m to_be_sent) in_cluster ∷ [])
    × IsPatched (meta_of in_cluster) (meta_of to_be_sent) m
patch_object-IsPatched_example =
    patch_object-IsPatched sample_platform sample_server in_cluster to_be_sent [] sample-VisitsAll

clean_objects-Deletes_example :
    Deletes empty_server
      (unwanted true (backstage_of external_db_spec))
      []
      (clean_objects empty_server true (backstage_of external_db_spec) [])
clean_objects-Deletes_example =
    clean_objects-Deletes empty_server true (backstage_of external_db_spec) []

preprocess_spec-IsComplete_example :
    OnOk
      (IsComplete sample_server "team" (application_of sample_backstage.spec))
      (preprocess_spec sample_platform sample_server sample_backstage []).0
preprocess_spec-IsComplete_example =
    preprocess_spec-IsComplete sample_platform sample_server sample_backstage []
      (λ h name ns cm e. cc)

preprocess_spec-Gives_example :
    Gives
      (IsWanted (λ name. stocked_config_map name) raw_config_spec)
      (preprocess_spec sample_platform stocked_server (backstage_of raw_config_spec) []).0
preprocess_spec-Gives_example =
    preprocess_spec-Gives sample_platform stocked_server (λ name. stocked_config_map name)
      (backstage_of raw_config_spec) [] sample-VisitsAll stocked-SpecThere

apply_objects-Leaves_example :
    Leaves sample_platform accepting_server
      (AreApplied sample_platform accepting_server sample_objects [])
      (apply_objects sample_platform accepting_server sample_objects [])
apply_objects-Leaves_example =
    apply_objects-Leaves sample_platform accepting_server sample_objects [] sample_objects-live

apply_object-db_secret_example :
    apply_object sample_platform sample_server (db_secret (some zero_secret)) [] ≡ (
      created (sample_server.on_write [] (create (secret zero_secret))),
      create (secret zero_secret) ∷ [],
    )
apply_object-db_secret_example = apply_object-db_secret sample_platform sample_server zero_secret []
