-- ===== src/Controller/Requests.antt =====
-- The requests to the API server, and its answers: any function of the requests made so far. So an
-- answer may depend on what was written before, and on what others did in between.
pub mod Sends
pub mod Bounds
use janus_idp_operator.Prelude.{String, Option, List, [], ◌∷◌, ◌++◌}
use janus_idp_operator.GoError.{GoError, ok, Reply}
use janus_idp_operator.Kube.{ConfigMap, KubeObject, Kind}
use janus_idp_operator.Api.{Backstage}
use janus_idp_operator.Controller.Exec.{Exec}

pub record NamespacedName : Type 0 where
  pub name : String
  pub namespace : String

pub data Request : Type 0 where
  get_backstage : NamespacedName → Request
  get_config_map : NamespacedName → Request
  get_object : Kind → NamespacedName → Request
  create : KubeObject → Request
  -- the object, and the base that the merge patch is computed against
  patch : (object base : KubeObject) → Request
  delete : Kind → NamespacedName → Request
  update_status : Backstage → Request

-- The requests so far, the oldest first.
abbrev pub History : Type 0
History = List Request

pub record Server : Type 0 where
  pub on_get_backstage : History → NamespacedName → Reply Backstage
  pub on_get_config_map : History → NamespacedName → Reply ConfigMap
  pub on_get_object : History → Kind → NamespacedName → Reply KubeObject
  -- the error of a create, a patch, a delete or an update
  pub on_write : History → Request → Option GoError

module _ (s : Server) where
  unfoldable pub send_get_backstage : NamespacedName → Exec History (Reply Backstage)
  send_get_backstage n h = (ok (s.on_get_backstage h n), h ++ get_backstage n ∷ [])

  unfoldable pub send_get_config_map : NamespacedName → Exec History (Reply ConfigMap)
  send_get_config_map n h = (ok (s.on_get_config_map h n), h ++ get_config_map n ∷ [])

  unfoldable pub send_get_object : Kind → NamespacedName → Exec History (Reply KubeObject)
  send_get_object k n h = (ok (s.on_get_object h k n), h ++ get_object k n ∷ [])

  unfoldable pub send_write : Request → Exec History (Option GoError)
  send_write r h = (ok (s.on_write h r), h ++ r ∷ [])
