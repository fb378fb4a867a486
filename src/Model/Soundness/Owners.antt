-- ===== src/Model/Soundness/Owners.antt =====
-- The objects have no owner until setMetaInfo sets one.
use janus_idp_operator.Prelude.{
  String, Bool, true, false, not, ◌&&◌, ◌||◌, Option, none, some, is_some, [], ◌∷◌, ◌≡◌, refl, sym,
  subst, arith, Option-cases, List-cases, inl, inr, same_refl, non_empty, if◌then◌else◌,
}
use janus_idp_operator.GoError.{Outcome, ok, err, panic, OnOk}
use janus_idp_operator.GoError.Safety.{OnOk-bind, OnOk-if, OnOk-option}
use janus_idp_operator.Kube.{KubeObject, ObjectMeta, Workload, Container, Route, meta_of}
use janus_idp_operator.Api.{BackstageSpec, is_route_enabled, route_of}
use janus_idp_operator.Platform.{Platform}
use janus_idp_operator.Model.Objects.{
  RuntimeObject, object, set_object, app_config, config_map_envs, config_map_files, db_secret,
  db_service, db_stateful_set, backstage_deployment, dynamic_plugins, backstage_route, secret_envs,
  secret_files, backstage_service,
}
use janus_idp_operator.Model.Objects.Pointers.{TakesIn, set_object-TakesIn}
use janus_idp_operator.Model.State.{Ref, BackstageModel, set_runtime_object}
use janus_idp_operator.Model.Pods.{
  pod_of, label_workload, change_container, backstage_image_env_var,
}
use janus_idp_operator.Model.Methods.{add_to_model, set_object_meta_info}
use janus_idp_operator.Model.AppConfig
use janus_idp_operator.Model.ConfigMapEnvs
use janus_idp_operator.Model.ConfigMapFiles
use janus_idp_operator.Model.DbSecret
use janus_idp_operator.Model.DbService
use janus_idp_operator.Model.DbStatefulSet
use janus_idp_operator.Model.DbStatefulSet.{local_db_image_env_var, set_image_of}
use janus_idp_operator.Model.Deployment
use janus_idp_operator.Model.DynamicPlugins
use janus_idp_operator.Model.DynamicPlugins.{plugins_name}
use janus_idp_operator.Model.BackstageRoute
use janus_idp_operator.Model.BackstageRoute.{set_route}
use janus_idp_operator.Model.SecretEnvs
use janus_idp_operator.Model.SecretFiles
use janus_idp_operator.Model.BackstageService

-- The metadata names no owner.
abbrev pub is_unowned_meta : ObjectMeta → Bool
is_unowned_meta meta = elim meta.owner_references [ [] ↦ true | r ∷ rs ↦ false ]

pub is_unowned_meta_iff : (m : ObjectMeta) → is_unowned_meta m ≡ true → m.owner_references ≡ []
is_unowned_meta_iff m e = elim (List-cases m.owner_references) [
  | inl n ↦ n
  | inr (r, rs, n) ↦ cc (e, n)
]

abbrev pub is_unowned_object : Option KubeObject → Bool
is_unowned_object none = true
is_unowned_object (some k) = is_unowned_meta (meta_of k)

-- The Kubernetes object, if there is one, names no owner.
unfoldable pub is_unowned : RuntimeObject → Bool
unfolding object
is_unowned o = is_unowned_object (object o)

abbrev pub is_unowned_at : Option RuntimeObject → Bool
is_unowned_at none = true
is_unowned_at (some o) = is_unowned o

pub set_object-unowned :
    (o : RuntimeObject) (k : KubeObject)
    → is_unowned_meta (meta_of k) ≡ true
    → OnOk (λ o'. is_unowned o' ≡ true) (set_object o k)
unfolding is_unowned
set_object-unowned o k e = taken (set_object o k) (set_object-TakesIn o k)
  where
    taken : (x : Outcome RuntimeObject) → TakesIn o k x → OnOk (λ o'. is_unowned o' ≡ true) x
    taken (ok o') (kind, holds) = subst (λ x. is_unowned_object x ≡ true) (sym holds.object_is) e
    taken (err x) h = tt
    taken panic h = tt

-- The method of each class that names the object leaves its owners alone.
pub class_meta-unowned :
    (o : RuntimeObject) (name : String)
    → is_unowned o ≡ true
    → OnOk (λ o'. is_unowned o' ≡ true) (set_object_meta_info o name)
unfolding is_unowned set_object_meta_info AppConfig.set_meta_info ConfigMapEnvs.set_meta_info
    ConfigMapFiles.set_meta_info DbSecret.set_meta_info DbService.set_meta_info
    DbStatefulSet.set_meta_info Deployment.set_meta_info DynamicPlugins.set_meta_info
    BackstageRoute.set_meta_info SecretEnvs.set_meta_info SecretFiles.set_meta_info
    BackstageService.set_meta_info label_workload object
class_meta-unowned (app_config b) name e = elim (Option-cases b.object) [
  | inl n ↦ rw n tt
  | inr (x, n) ↦ rw n (ground (arith, e, n))
]
class_meta-unowned (config_map_envs b) name e = elim (Option-cases b.object) [
  | inl n ↦ rw n tt
  | inr (x, n) ↦ rw n (ground (arith, e, n))
]
class_meta-unowned (config_map_files b) name e = elim (Option-cases b.object) [
  | inl n ↦ rw n tt
  | inr (x, n) ↦ rw n (ground (arith, e, n))
]
class_meta-unowned (secret_envs b) name e = elim (Option-cases b.object) [
  | inl n ↦ rw n tt
  | inr (x, n) ↦ rw n (ground (arith, e, n))
]
class_meta-unowned (secret_files b) name e = elim (Option-cases b.object) [
  | inl n ↦ rw n tt
  | inr (x, n) ↦ rw n (ground (arith, e, n))
]
class_meta-unowned (db_secret none) name e = tt
class_meta-unowned (db_secret (some x)) name e = e
class_meta-unowned (db_service none) name e = tt
class_meta-unowned (db_service (some x)) name e = e
class_meta-unowned (dynamic_plugins none) name e = tt
class_meta-unowned (dynamic_plugins (some x)) name e = e
class_meta-unowned (backstage_route none) name e = tt
class_meta-unowned (backstage_route (some x)) name e = e
class_meta-unowned (backstage_service none) name e = tt
class_meta-unowned (backstage_service (some x)) name e = e
class_meta-unowned (db_stateful_set none) name e = tt
class_meta-unowned (db_stateful_set (some w)) name e = elim (Option-cases w.selector) [
  | inl n ↦ rw n tt
  | inr (x, n) ↦ rw n e
]
class_meta-unowned (backstage_deployment none) name e = tt
class_meta-unowned (backstage_deployment (some w)) name e = elim (Option-cases w.selector) [
  | inl n ↦ rw n tt
  | inr (x, n) ↦ rw n e
]

-- A change of a container changes no metadata of the workload.
change_container-meta :
    (f : Container → Container) (w : Workload)
    → OnOk (λ w'. w'.meta ≡ w.meta) (change_container f w)
unfolding change_container
change_container-meta f w = elim (List-cases (pod_of w).containers) [
  | inl n ↦ rw n tt
  | inr (c, cs, n) ↦ rw n refl
]

db_image-meta :
    (p : Platform) (w : Workload) → OnOk (λ w'. w'.meta ≡ w.meta) (DbStatefulSet.override_image p w)
unfolding DbStatefulSet.override_image
db_image-meta p w =
    OnOk-if _ (non_empty (p.getenv local_db_image_env_var)) _ _ (change_container-meta _ w) refl

image-meta :
    (p : Platform) (w : Workload) → OnOk (λ w'. w'.meta ≡ w.meta) (Deployment.override_image p w)
unfolding Deployment.override_image
image-meta p w =
    let image = p.getenv backstage_image_env_var in
    OnOk-if (λ w'. w'.meta ≡ w.meta) (non_empty image) _ _
      (OnOk-bind (λ w'. w'.meta ≡ w.meta) (change_container (set_image_of image) w) _
        (change_container-meta (set_image_of image) w) λ w' e. e)
      refl

-- The route of the spec has no owner either.
chosen_route :
    (b : Option Route) (spec : BackstageSpec)
    → is_unowned (backstage_route b) ≡ true
    → is_unowned (
        backstage_route
          (if is_route_enabled spec then BackstageRoute.load_from_spec (route_of spec) b else b))
      ≡ true
unfolding is_unowned object set_route
chosen_route b spec e = ground (arith, e)

module _ (p : Platform) (r : Ref) (m : BackstageModel)
    (here : is_unowned_at (m.heap r) ≡ true) where
  abbrev Unowned : Bool × BackstageModel → Type 0
  Unowned x = is_unowned_at (x.1.heap r) ≡ true

  -- addToModel leaves an object without an owner at the address.
  pub add_to_model-Unowned :
      (o : RuntimeObject) (spec : BackstageSpec)
      → is_unowned o ≡ true
      → OnOk Unowned (add_to_model p o r spec m)
  unfolding is_unowned add_to_model object AppConfig.add_to_model ConfigMapEnvs.add_to_model
      ConfigMapFiles.add_to_model DbSecret.add_to_model DbService.add_to_model
      DbStatefulSet.add_to_model Deployment.add_to_model DynamicPlugins.add_to_model
      BackstageRoute.add_to_model SecretEnvs.add_to_model SecretFiles.add_to_model
      BackstageService.add_to_model set_runtime_object
  add_to_model-Unowned (app_config b) spec e = OnOk-option Unowned b.object _ _ here λ o _. here
  add_to_model-Unowned (config_map_envs b) spec e =
      OnOk-option Unowned b.object _ _ here λ o _. here
  add_to_model-Unowned (config_map_files b) spec e =
      OnOk-option Unowned b.object _ _ here λ o _. here
  add_to_model-Unowned (secret_envs b) spec e = OnOk-option Unowned b.object _ _ here λ o _. here
  add_to_model-Unowned (secret_files b) spec e = OnOk-option Unowned b.object _ _ here λ o _. here
  add_to_model-Unowned (db_secret none) spec e = here
  add_to_model-Unowned (db_secret (some x)) spec e =
      OnOk-if Unowned m.local_db_enabled _ _ here here
  add_to_model-Unowned (db_service none) spec e = OnOk-if Unowned m.local_db_enabled _ _ tt here
  add_to_model-Unowned (db_service (some x)) spec e =
      OnOk-if Unowned m.local_db_enabled _ _ here here
  add_to_model-Unowned (db_stateful_set none) spec e =
      OnOk-if Unowned m.local_db_enabled _ _ tt here
  add_to_model-Unowned (db_stateful_set (some w)) spec e =
      OnOk-if Unowned m.local_db_enabled _ _
        (OnOk-bind Unowned (DbStatefulSet.override_image p w) _ (db_image-meta p w)
          λ w' same. rw (same_refl r) (subst (λ meta. is_unowned_meta meta ≡ true) (sym same) e))
        here
  add_to_model-Unowned (backstage_deployment none) spec e = tt
  add_to_model-Unowned (backstage_deployment (some w)) spec e =
      OnOk-bind Unowned (Deployment.override_image p w) _ (image-meta p w)
        λ w' same. rw (same_refl r) (subst (λ meta. is_unowned_meta meta ≡ true) (sym same) e)
  add_to_model-Unowned (dynamic_plugins b) spec e =
      OnOk-if Unowned (not (is_some b) || non_empty (plugins_name spec)) _ _ here here
  add_to_model-Unowned (backstage_route b) spec e =
      OnOk-if Unowned ((not (is_some b) && not (is_route_enabled spec)) || not m.is_openshift) _ _
        here (rw (same_refl r) (chosen_route b spec e))
  add_to_model-Unowned (backstage_service none) spec e = tt
  add_to_model-Unowned (backstage_service (some x)) spec e = here
