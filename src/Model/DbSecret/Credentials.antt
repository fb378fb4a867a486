-- ===== src/Model/DbSecret/Credentials.antt =====
-- What the operator writes into the secret of the local database.
use janus_idp_operator.Prelude.{String, ℤ, true, false, some, List, ◌∷◌, ◌≡◌, refl, arith}
use janus_idp_operator.StringMap.{StringMap, lookup}
use janus_idp_operator.GoError.{ok}
use janus_idp_operator.Kube.{Secret, Service}
use janus_idp_operator.Api.{BackstageSpec, is_auth_secret_specified, is_local_db_enabled}
use janus_idp_operator.Platform.{Platform}
use janus_idp_operator.Utils.{generate_password}
use janus_idp_operator.Model.Objects.{db_secret, db_service}
use janus_idp_operator.Model.State.{BackstageModel, Ref, store}
use janus_idp_operator.Model.DbSecret.{
  validate, fill_secret, credentials, local_db_service_of, password_or_empty,
}

-- The secret has the address and the port of the database's service, and one password under both
-- of its names: a new one, or the empty text if none could be made.
pub record Describes (p : Platform) (o : Service) (port : ℤ) (creds : StringMap String)
    : Type 0 where
  pub host : lookup "POSTGRES_HOST" creds ≡ some o.meta.name
  pub at_port : lookup "POSTGRES_PORT" creds ≡ some (p.format_int port)
  pub user : lookup "POSTGRES_USER" creds ≡ some "postgres"
  pub password :
      lookup "POSTGRES_PASSWORD" creds ≡ some (password_or_empty (generate_password p 24))
  pub admin : lookup "POSTGRESQL_ADMIN_PASSWORD" creds ≡ lookup "POSTGRES_PASSWORD" creds

-- With a local database and no secret of the user's, and with a database service in the model that
-- has a port, the operator's secret gets the credentials of that service, in place of all that it
-- had; nothing else in the model changes.
pub validate-Describes :
    (p : Platform) (s : Secret) (r q : Ref) (spec : BackstageSpec) (m : BackstageModel)
    (o : Service) (port : ℤ) (ports : List ℤ)
    → is_auth_secret_specified spec ≡ false
    → is_local_db_enabled spec ≡ true
    → m.local_db_service ≡ some q
    → m.heap q ≡ some (db_service (some o))
    → o.ports ≡ port ∷ ports
    → (creds : StringMap String) × (validate p (some s) r spec m
        ≡ ok (store r (db_secret (some (record s { string_data = some creds }))) m))
      × Describes p o port creds
unfolding validate fill_secret local_db_service_of lookup
validate-Describes p s r q spec m o port ports no_auth enabled hs hq hp =
    (credentials p (password_or_empty (generate_password p 24)) o port, ground arith, described)
  where
    described :
        Describes p o port (credentials p (password_or_empty (generate_password p 24)) o port)
    described = record { host = refl; at_port = refl; user = refl; password = refl; admin = refl }
