-- ===== src/Controller/Reconcile/Access.antt =====
-- Which requests the operator may make, by its own access rules.
pub mod Preprocess
pub mod Apply
pub mod Whole
use janus_idp_operator.Prelude.{
  String, Bool, true, false, not, ◌&&◌, Option, none, some, List, [], ◌∷◌, ◌++◌, ◌==◌, ◌≡◌, refl,
  All, All-append, if◌then◌else◌, arith,
}
use janus_idp_operator.StringMap.{StringMap}
use janus_idp_operator.GoError.{
  GoError, wrap, has_reason, already_exists, not_found, Outcome, ok, err, panic, Reply, answered,
  failed,
}
use janus_idp_operator.Kube.{
  ConfigMap, Kind, config_map_kind, secret_kind, service_kind, deployment_kind, stateful_set_kind,
  route_kind, KubeObject, config_map, secret, service, deployment, stateful_set, route, kind_of,
}
use janus_idp_operator.Api.{
  Backstage, BackstageSpec, ObjectKeyRef, RuntimeConfig, AppConfigSpec, ExtraFiles, ExtraEnvs,
  is_local_db_enabled, is_route_enabled,
}
use janus_idp_operator.Platform.{Platform}
use janus_idp_operator.Model.Objects.{RuntimeObject, object}
use janus_idp_operator.Model.State.{BackstageModel}
use janus_idp_operator.Controller.Exec.{Exec, pure, raise, crash, lift, ◌>>=◌, ◌>>◌}
use janus_idp_operator.Controller.Exec.Keeps.{
  Keeps, Keeps-pure, Keeps-raise, Keeps-crash, Keeps-lift, Keeps-if, Keeps-bind,
}
use janus_idp_operator.Controller.Requests.{
  Server, History, Request, NamespacedName, get_backstage, get_config_map, get_object, create,
  patch, delete, update_status, send_get_backstage, send_get_config_map, send_get_object,
  send_write,
}
use janus_idp_operator.Controller.Preprocess.{
  preprocess_spec, preprocess, get_config_map_or, or_raise, copy_data, add_raw, process_raw_config,
  get_each, process_app_configs, process_extra_files, process_extra_envs, process_dynamic_plugins,
  application_of,
}
use janus_idp_operator.Controller.Apply.{
  apply_objects, apply_object, apply_kube, apply_pointer, apply_secret, apply_other, patch_existing,
  patch_object, check, rewrap, rewrapped, after_create_secret, after_get, is_secret, is_db_secret,
}
use janus_idp_operator.Controller.Clean.{
  clean_objects, clean_local_db, clean_local_db_unless, clean_route_if, try_to_delete, unless_gone,
}
use janus_idp_operator.Controller.Reconcile.{
  Reconciler, Session, reconcile, reconcile_found, run_stages, stage, staged, deferred,
}

-- The access rules of the kubebuilder comments, for the requests that the operator can make: all
-- but reading a secret.
unfoldable pub is_granted : Request → Bool
is_granted (get_backstage n) = true
is_granted (get_config_map n) = true
is_granted (get_object config_map_kind n) = true
is_granted (get_object service_kind n) = true
is_granted (get_object deployment_kind n) = true
is_granted (get_object stateful_set_kind n) = true
is_granted (get_object route_kind n) = true
is_granted (get_object secret_kind n) = false
is_granted (create k) = true
is_granted (patch k base) = true
is_granted (delete k n) = true
is_granted (update_status b) = true

abbrev pub Granted : History → Type 0
Granted h = All (λ r. is_granted r ≡ true) h

module _ (s : Server) where
  pub Granted-snoc :
      (h : History) (r : Request) → is_granted r ≡ true → Granted h → Granted (h ++ r ∷ [])
  Granted-snoc h r g hs = All-append (λ r. is_granted r ≡ true) h (r ∷ []) hs (g, tt)

  pub send_get_config_map-Keeps : (n : NamespacedName) → Keeps Granted (send_get_config_map s n)
  unfolding send_get_config_map is_granted
  send_get_config_map-Keeps n = record { after = λ h hs. Granted-snoc h (get_config_map n) refl hs }

  pub send_write-Keeps : (r : Request) → is_granted r ≡ true → Keeps Granted (send_write s r)
  unfolding send_write
  send_write-Keeps r g = record { after = λ h hs. Granted-snoc h r g hs }
