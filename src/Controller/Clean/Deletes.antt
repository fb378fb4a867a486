-- ===== src/Controller/Clean/Deletes.antt =====
-- The requests of cleanObjects.
use janus_idp_operator.Prelude.{
  String, ◌^◌, Bool, true, false, not, ◌&&◌, List, [], ◌∷◌, ◌++◌, refl, arith, if◌then◌else◌,
}
use janus_idp_operator.Kube.{Kind, stateful_set_kind, service_kind, secret_kind, route_kind}
use janus_idp_operator.Api.{Backstage, is_local_db_enabled, is_route_enabled}
use janus_idp_operator.Model.DbStatefulSet.{db_stateful_set_name}
use janus_idp_operator.Model.DbService.{db_service_name}
use janus_idp_operator.Model.DbSecret.{db_secret_default_name}
use janus_idp_operator.Model.BackstageRoute.{route_name}
use janus_idp_operator.Controller.Requests.{Server, History, Request, delete, send_write}
use janus_idp_operator.Controller.Requests.Sends.{Sends, Sent, Sends-pure, Sends-then}
use janus_idp_operator.Controller.Clean.{
  clean_objects, clean_local_db, clean_local_db_unless, clean_route_if, try_to_delete,
}

abbrev pub delete_of : Kind → String → Backstage → Request
delete_of kind suffix b =
    delete kind (record { name = b.meta.name ^ "-" ^ suffix; namespace = b.meta.namespace })

-- What is to be deleted: the three objects of the local database unless it is enabled, and the
-- route on OpenShift unless it is enabled.
unfoldable pub unwanted : Bool → Backstage → List Request
unwanted is_openshift b =
    (if is_local_db_enabled b.spec
      then []
      else delete_of stateful_set_kind "backstage-db" b
        ∷ delete_of service_kind "backstage-db" b
        ∷ delete_of secret_kind "backstage-db" b
        ∷ [])
    ++ (if is_openshift && not (is_route_enabled b.spec)
        then delete_of route_kind "backstage" b ∷ []
        else [])

try_to_delete-Sends :
    (s : Server) (kind : Kind) (name ns : String)
    → Sends
        (delete kind (record { name = name; namespace = ns }) ∷ [])
        (try_to_delete s kind name ns)
unfolding try_to_delete send_write
try_to_delete-Sends s kind name ns h = record {
  sent = delete kind (record { name = name; namespace = ns }) ∷ [];
  rest = [];
  split = refl;
  history = ground arith;
  complete = λ e. refl;
}

clean_local_db-Sends :
    (s : Server) (b : Backstage)
    → Sends
        (delete_of stateful_set_kind "backstage-db" b
          ∷ delete_of service_kind "backstage-db" b
          ∷ delete_of secret_kind "backstage-db" b
          ∷ [])
        (clean_local_db s b)
unfolding clean_local_db db_stateful_set_name db_service_name db_secret_default_name
clean_local_db-Sends s b =
    Sends-then _ _ _ _ (try_to_delete-Sends s _ _ _)
      (Sends-then _ _ _ _ (try_to_delete-Sends s _ _ _) (try_to_delete-Sends s _ _ _))

clean_local_db_unless-Sends :
    (s : Server) (enabled : Bool) (b : Backstage)
    → Sends
        (if enabled
          then []
          else delete_of stateful_set_kind "backstage-db" b
            ∷ delete_of service_kind "backstage-db" b
            ∷ delete_of secret_kind "backstage-db" b
            ∷ [])
        (clean_local_db_unless s enabled b)
clean_local_db_unless-Sends s true b = Sends-pure
clean_local_db_unless-Sends s false b = clean_local_db-Sends s b

clean_route_if-Sends :
    (s : Server) (gone : Bool) (b : Backstage)
    → Sends (if gone then delete_of route_kind "backstage" b ∷ [] else []) (clean_route_if s gone b)
unfolding route_name
clean_route_if-Sends s true b = try_to_delete-Sends s _ _ _
clean_route_if-Sends s false b = Sends-pure

-- The requests are a first part of the deletes of what is unwanted, and all of them if there is no
-- error.
pub clean_objects-Sent :
    (s : Server) (is_openshift : Bool) (b : Backstage) (h : History)
    → Sent (unwanted is_openshift b) h (clean_objects s is_openshift b h)
unfolding clean_objects unwanted
clean_objects-Sent s is_openshift b =
    Sends-then _ _ _ _ (clean_local_db_unless-Sends s _ b) (clean_route_if-Sends s _ b)
