-- ===== src/Model/Returns/Provided.antt =====
-- What InitObjects asks of the configuration.
use janus_idp_operator.Prelude.{
  ℕ, String, Bool, true, false, ◌&&◌, ◌||◌, Option, some, is_some, ◌≡◌, same, All,
}
use janus_idp_operator.GoError.{
  Outcome, ok, err, panic, Reply, answered, failed, has_reason, not_exist,
}
use janus_idp_operator.Kube.{KubeObject}
use janus_idp_operator.Api.{BackstageSpec, is_local_db_enabled}
use janus_idp_operator.Platform.{Platform}
use janus_idp_operator.Model.Objects.{type_code}
use janus_idp_operator.Model.Runtime.{ObjectConfig, runtime_config}
use janus_idp_operator.Model.Documents.{default_of, base_of, AreRead}
use janus_idp_operator.Model.Returns.FromSpec.{HaveKeys, file_secrets}
use janus_idp_operator.Model.Returns.MetaInfo.{installer_of}

-- The classes that InitObjects does not do without: the deployment and the service, and the stateful
-- set and the service of the database where that is enabled.
unfoldable pub is_needed : Bool → ℕ → Bool
is_needed local_db c = same c 6 || same c 11 || local_db && (same c 4 || same c 5)

abbrev pub is_ok : Outcome KubeObject → Bool
is_ok (ok k) = true
is_ok _ = false

-- The file was read, or it is not there.
abbrev pub is_read_or_missing : Outcome KubeObject → Bool
is_read_or_missing (ok k) = true
is_read_or_missing (err e) = has_reason not_exist e
is_read_or_missing panic = true

abbrev pub is_answered : Reply KubeObject → Bool
is_answered (answered k) = true
is_answered (failed e) = false

-- The default configuration or the raw one has the object.
abbrev pub is_given : Platform → (raw : String → Option String) → ObjectConfig → Bool
is_given p raw conf = is_ok (default_of p conf) || is_some (raw conf.key)

-- A deployment has the installer.
abbrev pub IsEquipped : KubeObject → Type 0
IsEquipped k = installer_of k ≡ true

-- A class of runtimeConfig: its default file is there and decodes, or is missing; its entry of the
-- raw configuration, if there is one, decodes; what is needed is given; and a deployment that is
-- decoded has the installer of the plugins.
pub record IsServed (p : Platform) (local_db : Bool) (raw : String → Option String)
    (conf : ObjectConfig) : Type 0 where
  pub readable : is_read_or_missing (default_of p conf) ≡ true
  pub decodes :
      (document : String)
      → raw conf.key ≡ some document
      → is_answered (p.decode document (base_of p conf)) ≡ true
  pub given : is_needed local_db (type_code conf.object_factory) ≡ true → is_given p raw conf ≡ true
  pub equipped : AreRead IsEquipped p raw conf

-- The configuration has what InitObjects asks for: each class is served, and each secret that the
-- spec mounts is given with a key.
pub record IsProvided (p : Platform) (spec : BackstageSpec) (raw : String → Option String)
    : Type 0 where
  pub classes : All (IsServed p (is_local_db_enabled spec) raw) runtime_config
  pub keys : HaveKeys (file_secrets spec)
