-- ===== src/Controller/Clean.antt =====
-- cleanObjects and tryToDelete of controllers/backstage_controller.go.
pub mod Deletes
pub mod Answers
pub mod DefaultRoute
pub mod Accepted
use janus_idp_operator.Prelude.{
  String, Bool, true, false, not, ◌&&◌, Option, none, some, ◌^◌, if◌then◌else◌,
}
use janus_idp_operator.GoError.{GoError, wrap, has_reason, not_found}
use janus_idp_operator.Kube.{Kind, stateful_set_kind, service_kind, secret_kind, route_kind}
use janus_idp_operator.Api.{Backstage, is_local_db_enabled, is_route_enabled}
use janus_idp_operator.Model.DbStatefulSet.{db_stateful_set_name}
use janus_idp_operator.Model.DbService.{db_service_name}
use janus_idp_operator.Model.DbSecret.{db_secret_default_name}
use janus_idp_operator.Model.BackstageRoute.{route_name}
use janus_idp_operator.Controller.Exec.{Exec, pure, raise, ◌>>=◌, ◌>>◌}
use janus_idp_operator.Controller.Requests.{Server, History, delete, send_write}

module _ (s : Server) where
  abbrev pub unless_gone : String → Option GoError → Exec History (Unit {0})
  unless_gone name none = pure tt
  unless_gone name (some e) =
      if not (has_reason not_found e)
      then raise (wrap "failed to cleanup runtime " (wrap ("failed to delete " ^ name ^ ": ") e))
      else pure tt

  -- tryToDelete, with the text that cleanObjects puts in front of its error
  unfoldable pub try_to_delete : Kind → (name ns : String) → Exec History (Unit {0})
  unfolding send_write has_reason
  try_to_delete kind name ns =
      send_write s (delete kind (record { name = name; namespace = ns })) >>= unless_gone name

  unfoldable pub clean_local_db : Backstage → Exec History (Unit {0})
  unfolding try_to_delete
  clean_local_db backstage = do
    try_to_delete stateful_set_kind (db_stateful_set_name backstage.meta.name)
        backstage.meta.namespace
    try_to_delete service_kind (db_service_name backstage.meta.name) backstage.meta.namespace
    try_to_delete secret_kind (db_secret_default_name backstage.meta.name) backstage.meta.namespace

  abbrev pub clean_local_db_unless : Bool → Backstage → Exec History (Unit {0})
  clean_local_db_unless enabled backstage =
      if not enabled then clean_local_db backstage else pure tt

  abbrev pub clean_route_if : Bool → Backstage → Exec History (Unit {0})
  clean_route_if unwanted backstage =
      if unwanted
      then try_to_delete route_kind (route_name backstage.meta.name) backstage.meta.namespace
      else pure tt

  unfoldable pub clean_objects : (is_openshift : Bool) → Backstage → Exec History (Unit {0})
  unfolding clean_local_db is_local_db_enabled is_route_enabled
  clean_objects is_openshift backstage = do
    clean_local_db_unless (is_local_db_enabled backstage.spec) backstage
    clean_route_if (is_openshift && not (is_route_enabled backstage.spec)) backstage
