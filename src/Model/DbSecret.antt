-- ===== src/Model/DbSecret.antt =====
-- pkg/model/db-secret.go: the secret with the local database's credentials.
pub mod Credentials
use janus_idp_operator.Prelude.{
  String, ℤ, Bool, true, false, not, ◌||◌, Option, none, some, List, [], ◌∷◌, if◌then◌else◌,
}
use janus_idp_operator.StringMap.{StringMap}
use janus_idp_operator.GoError.{Outcome, ok, panic, ◌>>=◌}
use janus_idp_operator.Kube.{Secret, Service}
use janus_idp_operator.Api.{BackstageSpec, is_auth_secret_specified, is_local_db_enabled}
use janus_idp_operator.Platform.{Platform}
use janus_idp_operator.Utils.{generate_runtime_object_name, generate_password}
use janus_idp_operator.Model.Objects.{RuntimeObject, db_secret, db_service}
use janus_idp_operator.Model.State.{BackstageModel, Ref, load, store, set_runtime_object}

unfoldable pub db_secret_default_name : String → String
unfolding generate_runtime_object_name
db_secret_default_name backstage_name = generate_runtime_object_name backstage_name "backstage-db"

unfoldable pub add_to_model : Option Secret → Ref → BackstageModel → Outcome (Bool × BackstageModel)
unfolding set_runtime_object
add_to_model none r m = ok (false, m)
add_to_model (some o) r m =
    if m.local_db_enabled
    then ok
        (true, record (set_runtime_object r (db_secret (some o)) m) { local_db_secret = some r })
    else ok (false, m)

unfoldable pub set_meta_info : Option Secret → String → Outcome (Option Secret)
unfolding db_secret_default_name
set_meta_info none backstage_name = panic
set_meta_info (some o) backstage_name =
    ok (some (record o { meta = record o.meta { name = db_secret_default_name backstage_name } }))

-- pswd, _ := utils.GeneratePassword(24): on an error the password is empty.
abbrev pub password_or_empty : Outcome String → String
password_or_empty (ok pswd) = pswd
password_or_empty _ = ""

-- service.service.Spec.Ports[0].Port
abbrev pub first_port : List ℤ → Outcome ℤ
first_port [] = panic
first_port (port ∷ ports) = ok port

-- model.LocalDbService.service
abbrev pub db_service_of : RuntimeObject → Outcome Service
db_service_of (db_service (some o)) = ok o
db_service_of _ = panic

unfoldable pub local_db_service_of : BackstageModel → Outcome Service
unfolding load
local_db_service_of m = elim m.local_db_service [
  | none ↦ panic
  | some r ↦ load m r >>= db_service_of
]

module _ (p : Platform) where
  unfoldable pub credentials : String → Service → ℤ → StringMap String
  credentials pswd o port =
      ("POSTGRES_PASSWORD", pswd)
      ∷ ("POSTGRESQL_ADMIN_PASSWORD", pswd)
      ∷ ("POSTGRES_USER", "postgres")
      ∷ ("POSTGRES_HOST", o.meta.name)
      ∷ ("POSTGRES_PORT", p.format_int port)
      ∷ []

  unfoldable pub fill_secret : Secret → BackstageModel → Outcome Secret
  unfolding credentials generate_password local_db_service_of
  fill_secret s m = do
    let pswd = password_or_empty (generate_password p 24)
    o ← local_db_service_of m
    port ← first_port o.ports
    ok (record s { string_data = some (credentials pswd o port) })

  abbrev pub fill_object : Option Secret → BackstageModel → Outcome RuntimeObject
  fill_object none m = panic
  fill_object (some s) m = fill_secret s m >>= λ s'. ok (db_secret (some s'))

  unfoldable pub validate :
      Option Secret → Ref → BackstageSpec → BackstageModel → Outcome BackstageModel
  unfolding fill_secret is_auth_secret_specified is_local_db_enabled
  validate b r spec m =
      if is_auth_secret_specified spec || not (is_local_db_enabled spec)
      then ok m
      else (fill_object b m >>= λ o. ok (store r o m))
