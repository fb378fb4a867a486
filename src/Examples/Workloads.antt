-- ===== src/Examples/Workloads.antt =====
-- The workloads, the services and the route of the tests.
use mathlib.Core.List.{Mem}
use janus_idp_operator.Controller.Clean.{clean_objects, clean_local_db, try_to_delete}
use janus_idp_operator.Controller.Requests.{send_write}
use janus_idp_operator.Model.State.{load}
use janus_idp_operator.Model.State.Classes.{find_class}
use janus_idp_operator.Model.Objects.{type_code}
use janus_idp_operator.Examples.{accepting_server}
use janus_idp_operator.Api.{is_local_db_enabled}
use janus_idp_operator.Controller.Preprocess.{no_config}
use janus_idp_operator.Model.Runtime.{new_model}
use janus_idp_operator.Model.Objects.{backstage_route, set_object}
use janus_idp_operator.Model.Objects.Pointers.{TakesIn, set_object-TakesIn}
use janus_idp_operator.Model.State.{BackstageModel}
use janus_idp_operator.Model.BackstageRoute
use janus_idp_operator.Model.BackstageRoute.{route_name}
use janus_idp_operator.Controller.Clean.DefaultRoute.{deletion, add_to_model-unwanted}
use janus_idp_operator.Prelude.{none, true, none, ◌≡◌, refl, [], ◌∷◌, some, pos}
use janus_idp_operator.GoError.{ok}
use janus_idp_operator.Kube.{Route, route, zero_route, Service, Workload}
use janus_idp_operator.Api.{is_route_enabled, Application}
use janus_idp_operator.Model.BackstageService
use janus_idp_operator.Model.DbService
use janus_idp_operator.Model.DbStatefulSet
use janus_idp_operator.Model.Deployment
use janus_idp_operator.Model.Deployment.{apply_application}
use janus_idp_operator.Model.Deployment.FromApplication.{wanted, apply_application_lem}
use janus_idp_operator.Model.Selection.{
  IsSelected, set_meta_info-IsSelected, db_set_meta_info-IsSelected,
}
use janus_idp_operator.Examples.{
  sample_backstage, sample_container, sample_workload, sample_service, sample_application,
}

abbrev rich_application : Application
rich_application = record sample_application {
  replicas = some (pos 3);
  image = some "quay.io/acme/backstage:1.2";
  image_pull_secrets = "pull-secret" ∷ [];
  extra_envs =
      some
        (record { envs = record { name = "A"; value = "1" } ∷ []; config_maps = []; secrets = [] });
}

apply_application_example :
    apply_application (some rich_application) sample_workload
    ≡ ok (wanted rich_application sample_workload sample_container [])
apply_application_example =
    apply_application_lem rich_application sample_workload sample_container [] refl

abbrev pub selecting_service : Service
selecting_service = record sample_service { selector = some (("app", "backstage") ∷ []) }

abbrev pub selected_workload : Workload
selected_workload = record sample_workload {
  selector = some (some (("app", "backstage") ∷ []));
  template = record sample_workload.template { labels = some (("app", "backstage") ∷ []) };
}

sample_workload-IsSelected : IsSelected selecting_service selected_workload
sample_workload-IsSelected = record {
  match_labels = some (("app", "backstage") ∷ []);
  selector_is = refl;
  by_service = λ k v e. e;
  by_workload = λ k v e. e;
}

set_meta_info-IsSelected_example :
    (s' : Service) × (w' : Workload) × (BackstageService.set_meta_info
        (some selecting_service)
        "bs1"
      ≡ ok (some s'))
    × (Deployment.set_meta_info (some selected_workload) "bs1" ≡ ok (some w'))
    × IsSelected s' w'
set_meta_info-IsSelected_example =
    set_meta_info-IsSelected selecting_service selected_workload "bs1" sample_workload-IsSelected

db_set_meta_info-IsSelected_example :
    (s' : Service) × (w' : Workload) × (DbService.set_meta_info (some selecting_service) "bs1"
      ≡ ok (some s'))
    × (DbStatefulSet.set_meta_info (some selected_workload) "bs1" ≡ ok (some w'))
    × IsSelected s' w'
db_set_meta_info-IsSelected_example =
    db_set_meta_info-IsSelected selecting_service selected_workload "bs1" sample_workload-IsSelected

abbrev openshift_model : BackstageModel
openshift_model = new_model sample_backstage no_config true

add_to_model-unwanted_example :
    ((m' : BackstageModel) × (BackstageRoute.add_to_model
          (some zero_route)
          3
          sample_backstage.spec
          openshift_model
        ≡ ok (true, m'))
      × (load m' 3 ≡ ok (backstage_route (some zero_route)))
      × (find_class m'.heap (type_code (backstage_route (some zero_route))) m'.runtime_objects
          ≡ some 3))
    × ((x' : Route) × (BackstageRoute.set_meta_info (some zero_route) "bs1" ≡ ok (some x'))
        × (x'.meta.name ≡ route_name "bs1"))
    × Mem (deletion sample_backstage) (clean_objects accepting_server true sample_backstage []).1
unfolding is_route_enabled is_local_db_enabled clean_objects clean_local_db try_to_delete send_write
add_to_model-unwanted_example =
    add_to_model-unwanted accepting_server zero_route 3 sample_backstage openshift_model [] refl
      refl refl

set_object-TakesIn_example :
    TakesIn
      (backstage_route none)
      (route zero_route)
      (set_object (backstage_route none) (route zero_route))
set_object-TakesIn_example = set_object-TakesIn (backstage_route none) (route zero_route)
