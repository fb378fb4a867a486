-- ===== src/Model/BackstageService.antt =====
-- pkg/model/service.go: the service in front of the Backstage deployment.
use janus_idp_operator.Prelude.{String, Bool, true, ◌^◌, Option, none, some}
use janus_idp_operator.GoError.{Outcome, ok, err, errorf, panic}
use janus_idp_operator.Kube.{Service}
use janus_idp_operator.Utils.{generate_runtime_object_name, generate_label}
use janus_idp_operator.Model.Objects.{backstage_service}
use janus_idp_operator.Model.State.{BackstageModel, Ref, set_runtime_object}
use janus_idp_operator.Model.Pods.{backstage_app_label}

unfoldable pub service_name : String → String
unfolding generate_runtime_object_name
service_name backstage_name = generate_runtime_object_name backstage_name "backstage"

unfoldable pub add_to_model :
    Option Service → Ref → BackstageModel → Outcome (Bool × BackstageModel)
unfolding set_runtime_object
add_to_model none r m = err (
    errorf
      "Backstage Service is not initialized, make sure there is service.yaml in default or raw configuration")
add_to_model (some o) r m = ok (
  true,
  set_runtime_object r (backstage_service (some o)) (record m { backstage_service_ref = some r }),
)

unfoldable pub set_meta_info : Option Service → String → Outcome (Option Service)
unfolding service_name generate_label
set_meta_info none backstage_name = panic
set_meta_info (some o) backstage_name = ok (
    some (record o {
      meta = record o.meta { name = service_name backstage_name };
      selector = generate_label o.selector backstage_app_label ("backstage-" ^ backstage_name);
    }))

-- validate has nothing to do.
abbrev pub validate : BackstageModel → Outcome BackstageModel
validate m = ok m
