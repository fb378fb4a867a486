-- ===== src/Model/Names.antt =====
-- The names of the runtime objects, from the methods setMetaInfo of pkg/model/<class>.go.
use text.Mathlib.TextLemmas.{append_cancel_right}
use janus_idp_operator.Prelude.{
  String, true, Option, none, some, ◌^◌, ◌≡◌, refl, sym, ◌∙◌, ap, ◌⊎◌, inl, inr, Option-cases,
  subst,
}
use janus_idp_operator.Prelude.Endings.{backwards, are_apart, endings-differ}
use janus_idp_operator.GoError.{ok, OnOk}
use janus_idp_operator.Kube.{KubeObject, Kind, kind_of, meta_of}
use janus_idp_operator.Utils.{generate_runtime_object_name}
use janus_idp_operator.Model.Objects.{
  RuntimeObject, type_code, object, empty_object, app_config, config_map_envs, config_map_files,
  db_secret, db_service, db_stateful_set, backstage_deployment, dynamic_plugins, backstage_route,
  secret_envs, secret_files, backstage_service,
}
use janus_idp_operator.Model.Methods.{set_object_meta_info}
use janus_idp_operator.Model.Pods.{label_workload}
use janus_idp_operator.Model.AppConfig
use janus_idp_operator.Model.ConfigMapEnvs
use janus_idp_operator.Model.ConfigMapFiles
use janus_idp_operator.Model.DbSecret
use janus_idp_operator.Model.DbService
use janus_idp_operator.Model.DbStatefulSet
use janus_idp_operator.Model.Deployment
use janus_idp_operator.Model.DynamicPlugins
use janus_idp_operator.Model.BackstageRoute
use janus_idp_operator.Model.SecretEnvs
use janus_idp_operator.Model.SecretFiles
use janus_idp_operator.Model.BackstageService

-- What tells the objects of a namespace apart: the kind and the name.
abbrev identity_of : KubeObject → Kind × String
identity_of k = (kind_of k, (meta_of k).name)

abbrev pub identity : RuntimeObject → Option (Kind × String)
identity o = elim (object o) [ none ↦ none | some k ↦ some (identity_of k) ]

-- What follows the name of the Backstage resource and a dash.
abbrev ending : RuntimeObject → String
ending (app_config b) = "backstage-appconfig"
ending (config_map_envs b) = "backstage-envs"
ending (config_map_files b) = "backstage-files"
ending (db_secret b) = "backstage-db"
ending (db_service b) = "backstage-db"
ending (db_stateful_set b) = "backstage-db"
ending (backstage_deployment b) = "backstage"
ending (dynamic_plugins b) = "backstage-dynamic-plugins"
ending (backstage_route b) = "backstage"
ending (secret_envs b) = "backstage-envs"
ending (secret_files b) = "backstage-files"
ending (backstage_service b) = "backstage"

abbrev named : RuntimeObject → String → Option (Kind × String)
named o name = some (kind_of (empty_object o), generate_runtime_object_name name (ending o))

-- setMetaInfo names the object after the Backstage resource and the class.
set_object_meta_info-named :
    (o : RuntimeObject) (name : String)
    → OnOk (λ o'. identity o' ≡ named o name) (set_object_meta_info o name)
unfolding set_object_meta_info object empty_object AppConfig.set_meta_info
    ConfigMapEnvs.set_meta_info ConfigMapFiles.set_meta_info DbSecret.set_meta_info
    DbService.set_meta_info DbStatefulSet.set_meta_info Deployment.set_meta_info
    DynamicPlugins.set_meta_info BackstageRoute.set_meta_info SecretEnvs.set_meta_info
    SecretFiles.set_meta_info BackstageService.set_meta_info label_workload
    AppConfig.app_config_default_name DbSecret.db_secret_default_name DbService.db_service_name
    DbStatefulSet.db_stateful_set_name Deployment.deployment_name
    DynamicPlugins.dynamic_plugins_default_name BackstageRoute.route_name
    BackstageService.service_name
set_object_meta_info-named (app_config b) name = elim (Option-cases b.object) [
  | inl n ↦ rw n tt
  | inr (x, n) ↦ rw n refl
]
set_object_meta_info-named (config_map_envs b) name = elim (Option-cases b.object) [
  | inl n ↦ rw n tt
  | inr (x, n) ↦ rw n refl
]
set_object_meta_info-named (config_map_files b) name = elim (Option-cases b.object) [
  | inl n ↦ rw n tt
  | inr (x, n) ↦ rw n refl
]
set_object_meta_info-named (db_secret none) name = tt
set_object_meta_info-named (db_secret (some x)) name = refl
set_object_meta_info-named (db_service none) name = tt
set_object_meta_info-named (db_service (some x)) name = refl
set_object_meta_info-named (db_stateful_set none) name = tt
set_object_meta_info-named (db_stateful_set (some w)) name = elim (Option-cases w.selector) [
  | inl n ↦ rw n tt
  | inr (x, n) ↦ rw n refl
]
set_object_meta_info-named (backstage_deployment none) name = tt
set_object_meta_info-named (backstage_deployment (some w)) name = elim (Option-cases w.selector) [
  | inl n ↦ rw n tt
  | inr (x, n) ↦ rw n refl
]
set_object_meta_info-named (dynamic_plugins none) name = tt
set_object_meta_info-named (dynamic_plugins (some x)) name = refl
set_object_meta_info-named (backstage_route none) name = tt
set_object_meta_info-named (backstage_route (some x)) name = refl
set_object_meta_info-named (secret_envs b) name = elim (Option-cases b.object) [
  | inl n ↦ rw n tt
  | inr (x, n) ↦ rw n refl
]
set_object_meta_info-named (secret_files b) name = elim (Option-cases b.object) [
  | inl n ↦ rw n tt
  | inr (x, n) ↦ rw n refl
]
set_object_meta_info-named (backstage_service none) name = tt
set_object_meta_info-named (backstage_service (some x)) name = refl

-- The classes whose objects are of one kind have endings that differ.
Separate : RuntimeObject → RuntimeObject → Type 0
Separate o o' =
    ((type_code o ≡ type_code o') × (ending o ≡ ending o'))
    ⊎ (are_apart (backwards ("-" ^ ending o)) (backwards ("-" ^ ending o')) ≡ true)

kind_of-Separate :
    (o o' : RuntimeObject) → kind_of (empty_object o) ≡ kind_of (empty_object o') → Separate o o'
unfolding Separate empty_object type_code
kind_of-Separate (app_config b) (app_config b') e = inl (refl, refl)
kind_of-Separate (app_config b) (config_map_envs b') e = inr refl
kind_of-Separate (app_config b) (config_map_files b') e = inr refl
kind_of-Separate (app_config b) (dynamic_plugins b') e = inr refl
kind_of-Separate (config_map_envs b) (app_config b') e = inr refl
kind_of-Separate (config_map_envs b) (config_map_envs b') e = inl (refl, refl)
kind_of-Separate (config_map_envs b) (config_map_files b') e = inr refl
kind_of-Separate (config_map_envs b) (dynamic_plugins b') e = inr refl
kind_of-Separate (config_map_files b) (app_config b') e = inr refl
kind_of-Separate (config_map_files b) (config_map_envs b') e = inr refl
kind_of-Separate (config_map_files b) (config_map_files b') e = inl (refl, refl)
kind_of-Separate (config_map_files b) (dynamic_plugins b') e = inr refl
kind_of-Separate (dynamic_plugins b) (app_config b') e = inr refl
kind_of-Separate (dynamic_plugins b) (config_map_envs b') e = inr refl
kind_of-Separate (dynamic_plugins b) (config_map_files b') e = inr refl
kind_of-Separate (dynamic_plugins b) (dynamic_plugins b') e = inl (refl, refl)
kind_of-Separate (db_secret b) (db_secret b') e = inl (refl, refl)
kind_of-Separate (db_secret b) (secret_envs b') e = inr refl
kind_of-Separate (db_secret b) (secret_files b') e = inr refl
kind_of-Separate (secret_envs b) (db_secret b') e = inr refl
kind_of-Separate (secret_envs b) (secret_envs b') e = inl (refl, refl)
kind_of-Separate (secret_envs b) (secret_files b') e = inr refl
kind_of-Separate (secret_files b) (db_secret b') e = inr refl
kind_of-Separate (secret_files b) (secret_envs b') e = inr refl
kind_of-Separate (secret_files b) (secret_files b') e = inl (refl, refl)
kind_of-Separate (db_service b) (db_service b') e = inl (refl, refl)
kind_of-Separate (db_service b) (backstage_service b') e = inr refl
kind_of-Separate (backstage_service b) (db_service b') e = inr refl
kind_of-Separate (backstage_service b) (backstage_service b') e = inl (refl, refl)
kind_of-Separate (db_stateful_set b) (db_stateful_set b') e = inl (refl, refl)
kind_of-Separate (backstage_deployment b) (backstage_deployment b') e = inl (refl, refl)
kind_of-Separate (backstage_route b) (backstage_route b') e = inl (refl, refl)
kind_of-Separate _ _ e = cc e

same_name :
    (o o' : RuntimeObject) (x y : String)
    → Separate o o'
    → generate_runtime_object_name x (ending o) ≡ generate_runtime_object_name y (ending o')
    → (type_code o ≡ type_code o') × (x ≡ y)
unfolding Separate generate_runtime_object_name
same_name o o' x y (inl (class, same)) e =
    (class, append_cancel_right x y ("-" ^ ending o) (e ∙ ap (λ t. y ^ ("-" ^ t)) (sym same)))
same_name o o' x y (inr apart) e =
    absurd (endings-differ x y ("-" ^ ending o) ("-" ^ ending o') apart e)

-- If setMetaInfo leaves two runtime objects with Kubernetes objects of one kind and one name,
-- then the two are of one class, and the Backstage resources have one name.
pub set_object_meta_info-separates :
    (o₁ o₂ o₁' o₂' : RuntimeObject) (x y : String)
    → set_object_meta_info o₁ x ≡ ok o₁'
    → set_object_meta_info o₂ y ≡ ok o₂'
    → identity o₁' ≡ identity o₂'
    → (type_code o₁ ≡ type_code o₂) × (x ≡ y)
set_object_meta_info-separates o₁ o₂ o₁' o₂' x y e₁ e₂ e =
    same_name o₁ o₂ x y (kind_of-Separate o₁ o₂ (cc alike)) (cc alike)
  where
    named₁ : identity o₁' ≡ named o₁ x
    named₁ = subst (OnOk (λ o'. identity o' ≡ named o₁ x)) e₁ (set_object_meta_info-named o₁ x)

    named₂ : identity o₂' ≡ named o₂ y
    named₂ = subst (OnOk (λ o'. identity o' ≡ named o₂ y)) e₂ (set_object_meta_info-named o₂ y)

    alike : named o₁ x ≡ named o₂ y
    alike = sym named₁ ∙ e ∙ named₂
