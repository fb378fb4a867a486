-- ===== src/Model/DbService.antt =====
-- pkg/model/db-service.go: the service of the local database.
use janus_idp_operator.Prelude.{String, Bool, true, false, ◌^◌, Option, none, some, if◌then◌else◌}
use janus_idp_operator.GoError.{Outcome, ok, err, errorf, panic}
use janus_idp_operator.Kube.{Service}
use janus_idp_operator.Utils.{generate_runtime_object_name, generate_label}
use janus_idp_operator.Model.Objects.{db_service}
use janus_idp_operator.Model.State.{BackstageModel, Ref, set_runtime_object}
use janus_idp_operator.Model.Pods.{backstage_app_label}

unfoldable pub db_service_name : String → String
unfolding generate_runtime_object_name
db_service_name backstage_name = generate_runtime_object_name backstage_name "backstage-db"

unfoldable pub add_to_model :
    Option Service → Ref → BackstageModel → Outcome (Bool × BackstageModel)
unfolding set_runtime_object
add_to_model none r m =
    if m.local_db_enabled
    then err (
        errorf
          "LocalDb Service not initialized, make sure there is db-service.yaml.yaml in default or raw configuration")
    else ok (false, m)
add_to_model (some o) r m =
    if m.local_db_enabled
    then ok
        (true, set_runtime_object r (db_service (some o)) (record m { local_db_service = some r }))
    else ok (false, m)

unfoldable pub set_meta_info : Option Service → String → Outcome (Option Service)
unfolding db_service_name generate_label
set_meta_info none backstage_name = panic
set_meta_info (some o) backstage_name = ok (
    some (record o {
      meta = record o.meta { name = db_service_name backstage_name };
      selector = generate_label o.selector backstage_app_label ("backstage-db-" ^ backstage_name);
    }))

-- validate has nothing to do.
abbrev pub validate : BackstageModel → Outcome BackstageModel
validate m = ok m
