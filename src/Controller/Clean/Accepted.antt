-- ===== src/Controller/Clean/Accepted.antt =====
-- cleanObjects on a cluster that accepts what it is sent.
use janus_idp_operator.Prelude.{String, Bool, true, false, not, ◌&&◌}
use janus_idp_operator.GoError.{Any, Gives}
use janus_idp_operator.Kube.{Kind}
use janus_idp_operator.Api.{Backstage, is_local_db_enabled, is_route_enabled}
use janus_idp_operator.Controller.Exec.{Exec}
use janus_idp_operator.Controller.Exec.Returns.{Gives-continue}
use janus_idp_operator.Controller.Requests.{Server, History, send_write}
use janus_idp_operator.Controller.Apply.Accepted.{Accepts}
use janus_idp_operator.Controller.Clean.{
  clean_objects, clean_local_db, clean_local_db_unless, clean_route_if, try_to_delete,
}

module _ (s : Server) (accepts : Accepts s) where
  -- The method returns without an error.
  abbrev Returns : Exec History (Unit {0}) → Type 0
  Returns method = (h : History) → Gives Any (method h).0

  try_to_delete-ok : (kind : Kind) (name ns : String) → Returns (try_to_delete s kind name ns)
  unfolding try_to_delete send_write
  try_to_delete-ok kind name ns h = rw accepts.writes tt

  clean_local_db-ok : (enabled : Bool) (b : Backstage) → Returns (clean_local_db_unless s enabled b)
  unfolding clean_local_db
  clean_local_db-ok true b h = tt
  clean_local_db-ok false b h =
      Gives-continue Any (try_to_delete s _ _ _ h).0 _ _ (try_to_delete-ok _ _ _ h) λ _ _.
        Gives-continue Any (try_to_delete s _ _ _ _).0 _ _ (try_to_delete-ok _ _ _ _)
          λ _ _. try_to_delete-ok _ _ _ _

  clean_route-ok : (gone : Bool) (b : Backstage) → Returns (clean_route_if s gone b)
  clean_route-ok true b h = try_to_delete-ok _ _ _ h
  clean_route-ok false b h = tt

  pub clean_objects-ok :
      (is_openshift : Bool) (b : Backstage) → Returns (clean_objects s is_openshift b)
  unfolding clean_objects
  clean_objects-ok is_openshift b h =
      Gives-continue Any (clean_local_db_unless s (is_local_db_enabled b.spec) b h).0 _ _
        (clean_local_db-ok (is_local_db_enabled b.spec) b h)
        λ _ _. clean_route-ok (is_openshift && not (is_route_enabled b.spec)) b _
