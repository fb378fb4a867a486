-- ===== src/Controller/Apply/Secrets.antt =====
-- How secrets are applied.
use janus_idp_operator.Prelude.{Option, none, some, [], ◌∷◌, ◌++◌, ◌≡◌, arith, if◌then◌else◌}
use janus_idp_operator.GoError.{GoError, wrap, has_reason, already_exists, Outcome, ok, err}
use janus_idp_operator.Kube.{Secret, secret}
use janus_idp_operator.Platform.{Platform}
use janus_idp_operator.Model.Objects.{db_secret}
use janus_idp_operator.Controller.Requests.{Server, History, create, send_write}
use janus_idp_operator.Controller.Apply.{apply_object, apply_secret}

-- What the attempt to create the database's secret means: that the secret is there already is no
-- error.
abbrev pub created : Option GoError → Outcome (Unit {0})
created none = ok tt
created (some e) =
    if has_reason already_exists e then ok tt else err (wrap "failed to create secret: " e)

-- Applying the database's secret is one request, which creates it, whatever the server answers: a
-- secret that is there already, with its password, is never read and never overwritten.
pub apply_object-db_secret :
    (p : Platform) (s : Server) (x : Secret) (h : History)
    → apply_object p s (db_secret (some x)) h
      ≡ (created (s.on_write h (create (secret x))), h ++ create (secret x) ∷ [])
unfolding apply_object apply_secret send_write
apply_object-db_secret p s x h = ground arith
