-- ===== src/Model/Returns/MetaInfo.antt =====
-- setMetaInfo returns no error and keeps the installer of the plugins.
use janus_idp_operator.Prelude.{
  String, Bool, true, none, some, is_some, ◌≡◌, refl, sym, ◌∙◌, Option-cases, inl, inr, arith,
}
use janus_idp_operator.GoError.{Outcome, ok, err, panic, answered, failed, Reply}
use janus_idp_operator.GoError.Errless.{
  Errless, Errless-bind, Errless-if, Errless-option, Errless-map,
}
use janus_idp_operator.Kube.{ObjectMeta, KubeObject, deployment, meta_of, set_meta}
use janus_idp_operator.Api.{Backstage}
use janus_idp_operator.Platform.{Platform}
use janus_idp_operator.Model.Objects.{
  RuntimeObject, object, set_object, app_config, config_map_envs, config_map_files, db_secret,
  db_service, db_stateful_set, backstage_deployment, dynamic_plugins, backstage_route, secret_envs,
  secret_files, backstage_service,
}
use janus_idp_operator.Model.Objects.Pointers.{Holds, TakesIn, set_object-TakesIn}
use janus_idp_operator.Model.Pods.{pod_of, label_workload}
use janus_idp_operator.Model.Methods.{set_object_meta_info}
use janus_idp_operator.Model.AppConfig
use janus_idp_operator.Model.ConfigMapEnvs
use janus_idp_operator.Model.ConfigMapFiles
use janus_idp_operator.Model.DbSecret
use janus_idp_operator.Model.DbService
use janus_idp_operator.Model.DbStatefulSet
use janus_idp_operator.Model.Deployment
use janus_idp_operator.Model.DynamicPlugins
use janus_idp_operator.Model.DynamicPlugins.{dynamic_plugins_init_container}
use janus_idp_operator.Model.BackstageRoute
use janus_idp_operator.Model.SecretEnvs
use janus_idp_operator.Model.SecretFiles
use janus_idp_operator.Model.BackstageService
use janus_idp_operator.Model.Runtime.{complete_meta, set_meta_info}
use janus_idp_operator.Model.Returns.{installer_in}

-- A Kubernetes deployment has the installer of the plugins.
abbrev pub installer_of : KubeObject → Bool
installer_of (deployment w) = is_some (dynamic_plugins_init_container (pod_of w).init_containers)
installer_of _ = true

pub installer_in-object :
    (o : RuntimeObject) (k : KubeObject) → object o ≡ some k → installer_in o ≡ installer_of k
unfolding object
installer_in-object o k e = ground (arith, e)

-- setObject takes the object in.
pub set_object-Errless : (o : RuntimeObject) (k : KubeObject) → Errless (Holds o k) (set_object o k)
set_object-Errless o k = taken (set_object o k) (set_object-TakesIn o k)
  where
    taken : (x : Outcome RuntimeObject) → TakesIn o k x → Errless (Holds o k) x
    taken (ok o') (kind, holds) = holds
    taken (err e) h = h
    taken panic h = tt

installer_of-set_meta :
    (m : ObjectMeta) (k : KubeObject) → installer_of (set_meta m k) ≡ installer_of k
installer_of-set_meta m k = ground arith

abbrev Kept : RuntimeObject → Type 0
Kept o = installer_in o ≡ true

class_meta-Errless :
    (o : RuntimeObject) (name : String) → Kept o → Errless Kept (set_object_meta_info o name)
unfolding set_object_meta_info AppConfig.set_meta_info ConfigMapEnvs.set_meta_info
    ConfigMapFiles.set_meta_info DbSecret.set_meta_info DbService.set_meta_info
    DbStatefulSet.set_meta_info Deployment.set_meta_info DynamicPlugins.set_meta_info
    BackstageRoute.set_meta_info SecretEnvs.set_meta_info SecretFiles.set_meta_info
    BackstageService.set_meta_info label_workload
class_meta-Errless (app_config b) name e = elim (Option-cases b.object) [
  | inl n ↦ rw n tt
  | inr (x, n) ↦ rw n refl
]
class_meta-Errless (config_map_envs b) name e = elim (Option-cases b.object) [
  | inl n ↦ rw n tt
  | inr (x, n) ↦ rw n refl
]
class_meta-Errless (config_map_files b) name e = elim (Option-cases b.object) [
  | inl n ↦ rw n tt
  | inr (x, n) ↦ rw n refl
]
class_meta-Errless (db_secret none) name e = tt
class_meta-Errless (db_secret (some x)) name e = refl
class_meta-Errless (db_service none) name e = tt
class_meta-Errless (db_service (some x)) name e = refl
class_meta-Errless (db_stateful_set none) name e = tt
class_meta-Errless (db_stateful_set (some w)) name e = elim (Option-cases w.selector) [
  | inl n ↦ rw n tt
  | inr (x, n) ↦ rw n refl
]
class_meta-Errless (backstage_deployment none) name e = tt
class_meta-Errless (backstage_deployment (some w)) name e = elim (Option-cases w.selector) [
  | inl n ↦ rw n tt
  | inr (x, n) ↦ rw n e
]
class_meta-Errless (dynamic_plugins none) name e = tt
class_meta-Errless (dynamic_plugins (some x)) name e = refl
class_meta-Errless (backstage_route none) name e = tt
class_meta-Errless (backstage_route (some x)) name e = refl
class_meta-Errless (secret_envs b) name e = elim (Option-cases b.object) [
  | inl n ↦ rw n tt
  | inr (x, n) ↦ rw n refl
]
class_meta-Errless (secret_files b) name e = elim (Option-cases b.object) [
  | inl n ↦ rw n tt
  | inr (x, n) ↦ rw n refl
]
class_meta-Errless (backstage_service none) name e = tt
class_meta-Errless (backstage_service (some x)) name e = refl

module _ (p : Platform) (backstage : Backstage) (owns : Bool) where
  complete_meta-Errless :
      (meta : ObjectMeta) → Errless (λ m. Unit {0}) (complete_meta p backstage owns meta)
  unfolding complete_meta
  complete_meta-Errless meta =
      Errless-if _ owns _ _ (λ _. replied (p.set_controller_reference backstage _)) (λ _. tt)
    where
      replied :
          (r : Reply ObjectMeta)
          → Errless (λ m. Unit {0}) (elim r [ answered m ↦ ok m | failed e ↦ panic ])
      replied (answered m) = tt
      replied (failed e) = tt

  pub set_meta_info-Errless :
      (o : RuntimeObject) → Kept o → Errless Kept (set_meta_info p backstage owns o)
  unfolding set_meta_info
  set_meta_info-Errless o e =
      Errless-bind Kept (set_object_meta_info o backstage.meta.name) _
        (class_meta-Errless o backstage.meta.name e)
        λ o' _ e'.
          Errless-option Kept (object o') _ _ (λ _. tt)
            λ k n.
              Errless-bind Kept (complete_meta p backstage owns (meta_of k)) _
                (complete_meta-Errless (meta_of k))
                λ meta _ _.
                  Errless-map (Holds o' (set_meta meta k)) Kept (set_object o' (set_meta meta k))
                    (set_object-Errless o' (set_meta meta k))
                    λ o'' h.
                      installer_in-object o'' (set_meta meta k) h.object_is
                      ∙ installer_of-set_meta meta k
                      ∙ sym (installer_in-object o' k n)
                      ∙ e'
