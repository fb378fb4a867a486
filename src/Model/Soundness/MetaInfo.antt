-- ===== src/Model/Soundness/MetaInfo.antt =====
-- setMetaInfo keeps a sound object sound, and in its class.
use janus_idp_operator.Prelude.{
  String, Bool, true, Option, none, some, is_some, [], ◌^◌, ◌≡◌, refl, ◌∙◌,
}
use janus_idp_operator.GoError.{Outcome, ok, err, panic, ◌>>=◌, Safe, answered}
use janus_idp_operator.GoError.Safety.{Safe-bind, Safe-map, Safe-if, Safe-option, Safe-both}
use janus_idp_operator.Kube.{
  config_map, secret, service, route, KubeObject, ObjectMeta, meta_of, set_meta,
}
use janus_idp_operator.Api.{Backstage}
use janus_idp_operator.Platform.{Platform}
use janus_idp_operator.Utils.{set_kube_labels}
use janus_idp_operator.Model.Objects.{
  RuntimeObject, type_code, app_config, config_map_envs, config_map_files, db_secret, db_service,
  db_stateful_set, backstage_deployment, dynamic_plugins, backstage_route, secret_envs,
  secret_files, backstage_service, object, set_object,
}
use janus_idp_operator.Model.AppConfig
use janus_idp_operator.Model.BackstageRoute
use janus_idp_operator.Model.BackstageService
use janus_idp_operator.Model.ConfigMapEnvs
use janus_idp_operator.Model.ConfigMapFiles
use janus_idp_operator.Model.DbSecret
use janus_idp_operator.Model.DbService
use janus_idp_operator.Model.DbStatefulSet
use janus_idp_operator.Model.DbStatefulSet.{db_stateful_set_name}
use janus_idp_operator.Model.Deployment
use janus_idp_operator.Model.Deployment.{deployment_name}
use janus_idp_operator.Model.Pods.{label_workload, backstage_app_label}
use janus_idp_operator.Model.DynamicPlugins
use janus_idp_operator.Model.SecretEnvs
use janus_idp_operator.Model.SecretFiles
use janus_idp_operator.Model.Objects.{rebuild}
use janus_idp_operator.Model.Methods.{set_object_meta_info}
use janus_idp_operator.Model.Runtime.{complete_meta, set_meta_info}
use janus_idp_operator.Model.Soundness.{is_sound}
use janus_idp_operator.Model.Soundness.Owners.{
  is_unowned_meta, is_unowned_meta_iff, is_unowned_object, is_unowned, class_meta-unowned,
}
use janus_idp_operator.Model.Soundness.Workloads.{label_workload-Safe}

-- SetControllerReference succeeds on an object in its owner's namespace that has no owner. It fails
-- for an owner in another namespace, and for an object that another controller owns.
abbrev pub OwnsAll : Platform → Type 0
OwnsAll p =
    (backstage : Backstage) (m : ObjectMeta)
    → m.namespace ≡ backstage.meta.namespace
    → m.owner_references ≡ []
    → (m' : ObjectMeta) × (p.set_controller_reference backstage m ≡ answered m')

-- A sound object of the same class.
pub record Matches (o o' : RuntimeObject) : Type 0 where
  pub class : type_code o' ≡ type_code o
  pub live : is_sound o' ≡ true

rebuild-Safe :
    {A : Type 0} (o : RuntimeObject) (P : A → Type 0) (c : A → RuntimeObject) (x : Outcome A)
    → ((a : A) → P a → Matches o (c a))
    → Safe P x
    → Safe (Matches o) (rebuild c x)
rebuild-Safe o P c (ok a) k holds = k a holds
rebuild-Safe o P c (err e) k holds = holds
rebuild-Safe o P c panic k holds = holds

-- The methods of the classes.
set_object_meta_info-Safe :
    (o : RuntimeObject) (n : String)
    → is_sound o ≡ true
    → Safe (Matches o) (set_object_meta_info o n)
unfolding set_object_meta_info type_code AppConfig.set_meta_info ConfigMapEnvs.set_meta_info
    ConfigMapFiles.set_meta_info DbSecret.set_meta_info DbService.set_meta_info
    DbStatefulSet.set_meta_info Deployment.set_meta_info DynamicPlugins.set_meta_info
    BackstageRoute.set_meta_info SecretEnvs.set_meta_info SecretFiles.set_meta_info
    BackstageService.set_meta_info
set_object_meta_info-Safe (app_config b) n live =
    rebuild-Safe (app_config b) (λ x. is_some x.object ≡ true) app_config _
      (λ x h. record { class = refl; live = h })
      (Safe-option _ b.object _ _ (λ q. cc (q, live)) λ _ _. refl)
set_object_meta_info-Safe (config_map_envs b) n live =
    rebuild-Safe (config_map_envs b) (λ x. is_some x.object ≡ true) config_map_envs _
      (λ x h. record { class = refl; live = h })
      (Safe-option _ b.object _ _ (λ q. cc (q, live)) λ _ _. refl)
set_object_meta_info-Safe (config_map_files b) n live =
    rebuild-Safe (config_map_files b) (λ x. is_some x.object ≡ true) config_map_files _
      (λ x h. record { class = refl; live = h })
      (Safe-option _ b.object _ _ (λ q. cc (q, live)) λ _ _. refl)
set_object_meta_info-Safe (secret_envs b) n live =
    rebuild-Safe (secret_envs b) (λ x. is_some x.object ≡ true) secret_envs _
      (λ x h. record { class = refl; live = h })
      (Safe-option _ b.object _ _ (λ q. cc (q, live)) λ _ _. refl)
set_object_meta_info-Safe (secret_files b) n live =
    rebuild-Safe (secret_files b) (λ x. is_some x.object ≡ true) secret_files _
      (λ x h. record { class = refl; live = h })
      (Safe-option _ b.object _ _ (λ q. cc (q, live)) λ _ _. refl)
set_object_meta_info-Safe (db_secret none) n live = cc
set_object_meta_info-Safe (db_secret (some x)) n live = record { class = refl; live = refl }
set_object_meta_info-Safe (db_service none) n live = cc
set_object_meta_info-Safe (db_service (some x)) n live = record { class = refl; live = live }
set_object_meta_info-Safe (db_stateful_set none) n live = cc
set_object_meta_info-Safe (db_stateful_set (some w)) n live =
    rebuild-Safe (db_stateful_set (some w)) (λ b. is_sound (db_stateful_set b) ≡ true)
      db_stateful_set _ (λ b h. record { class = refl; live = h })
      (let w₁ = record w { meta = record w.meta { name = db_stateful_set_name n } } in
        Safe-bind (λ b. is_sound (db_stateful_set b) ≡ true)
          (label_workload backstage_app_label ("backstage-db-" ^ n) w₁) _
          (label_workload-Safe backstage_app_label ("backstage-db-" ^ n) w₁ live) λ w' live'. live')
set_object_meta_info-Safe (backstage_deployment none) n live = cc
set_object_meta_info-Safe (backstage_deployment (some w)) n live =
    rebuild-Safe (backstage_deployment (some w)) (λ b. is_sound (backstage_deployment b) ≡ true)
      backstage_deployment _ (λ b h. record { class = refl; live = h })
      (let w₁ = record w { meta = record w.meta { name = deployment_name n } } in
        Safe-bind (λ b. is_sound (backstage_deployment b) ≡ true)
          (label_workload backstage_app_label ("backstage-" ^ n) w₁) _
          (label_workload-Safe backstage_app_label ("backstage-" ^ n) w₁ live) λ w' live'. live')
set_object_meta_info-Safe (dynamic_plugins none) n live = cc
set_object_meta_info-Safe (dynamic_plugins (some x)) n live = record { class = refl; live = refl }
set_object_meta_info-Safe (backstage_route none) n live = cc
set_object_meta_info-Safe (backstage_route (some x)) n live = record { class = refl; live = refl }
set_object_meta_info-Safe (backstage_service none) n live = cc
set_object_meta_info-Safe (backstage_service (some x)) n live = record { class = refl; live = refl }

complete_meta-Safe :
    (p : Platform) (backstage : Backstage) (owns : Bool) (m : ObjectMeta)
    → OwnsAll p
    → is_unowned_meta m ≡ true
    → Safe (λ _. Unit {0}) (complete_meta p backstage owns m)
unfolding complete_meta
complete_meta-Safe p backstage owns m owned free =
    Safe-if (λ _. Unit {0}) owns _ _
      (λ _.
        let m₁ : ObjectMeta = record m {
          namespace = backstage.meta.namespace;
          labels = some (set_kube_labels m.labels backstage.meta.name);
        } in
        let (m', e) = owned backstage m₁ refl (is_unowned_meta_iff m free) in rw e tt)
      (λ _. tt)

-- An object that is there is taken out, and put back in another form.
reopened :
    {A : Type 0} (Q : RuntimeObject → Type 0) (x : Option A) (c : A → KubeObject)
    (f : KubeObject → Outcome RuntimeObject)
    → is_some x ≡ true
    → is_unowned_object (elim x as (λ _. Option KubeObject) [ none ↦ none | some a ↦ some (c a) ])
      ≡ true
    → ((a : A) → is_unowned_meta (meta_of (c a)) ≡ true → Safe Q (f (c a)))
    → Safe Q
        (elim (elim x as (λ _. Option KubeObject) [ none ↦ none | some a ↦ some (c a) ])
          as (λ _. Outcome RuntimeObject) [ none ↦ panic | some k ↦ f k ])
reopened Q none c f live free k = cc
reopened Q (some a) c f live free k = k a free

module _ (p : Platform) (backstage : Backstage) (owns : Bool) (owned : OwnsAll p) where
  with_meta :
      (Q : RuntimeObject → Type 0) (m : ObjectMeta) (f : ObjectMeta → Outcome RuntimeObject)
      → is_unowned_meta m ≡ true
      → ((meta : ObjectMeta) → Safe Q (f meta))
      → Safe Q (complete_meta p backstage owns m >>= f)
  with_meta Q m f free k =
      Safe-bind Q (complete_meta p backstage owns m) f
        (complete_meta-Safe p backstage owns m owned free) λ meta _. k meta

  abbrev replaced : RuntimeObject → KubeObject → Outcome RuntimeObject
  replaced o k =
      complete_meta p backstage owns (meta_of k) >>= λ meta. set_object o (set_meta meta k)

  -- The object is given back with other metadata.
  restored-Safe :
      (o : RuntimeObject)
      → is_sound o ≡ true
      → is_unowned o ≡ true
      → Safe (Matches o) (elim (object o) [ none ↦ panic | some k ↦ replaced o k ])
  unfolding object set_object type_code is_unowned
  restored-Safe (app_config b) live free =
      reopened (Matches (app_config b)) b.object config_map (replaced (app_config b)) live free
        λ a free. with_meta _ a.meta _ free λ meta. record { class = refl; live = refl }
  restored-Safe (config_map_envs b) live free =
      reopened (Matches (config_map_envs b)) b.object config_map (replaced (config_map_envs b)) live
        free λ a free. with_meta _ a.meta _ free λ meta. record { class = refl; live = refl }
  restored-Safe (config_map_files b) live free =
      reopened (Matches (config_map_files b)) b.object config_map (replaced (config_map_files b))
        live free λ a free. with_meta _ a.meta _ free λ meta. record { class = refl; live = refl }
  restored-Safe (secret_envs b) live free =
      reopened (Matches (secret_envs b)) b.object secret (replaced (secret_envs b)) live free
        λ a free. with_meta _ a.meta _ free λ meta. record { class = refl; live = refl }
  restored-Safe (secret_files b) live free =
      reopened (Matches (secret_files b)) b.object secret (replaced (secret_files b)) live free
        λ a free. with_meta _ a.meta _ free λ meta. record { class = refl; live = refl }
  restored-Safe (db_secret b) live free =
      reopened (Matches (db_secret b)) b secret (replaced (db_secret b)) live free
        λ a free. with_meta _ a.meta _ free λ meta. record { class = refl; live = refl }
  restored-Safe (dynamic_plugins b) live free =
      reopened (Matches (dynamic_plugins b)) b config_map (replaced (dynamic_plugins b)) live free
        λ a free. with_meta _ a.meta _ free λ meta. record { class = refl; live = refl }
  restored-Safe (backstage_route b) live free =
      reopened (Matches (backstage_route b)) b route (replaced (backstage_route b)) live free
        λ a free. with_meta _ a.meta _ free λ meta. record { class = refl; live = refl }
  restored-Safe (backstage_service b) live free =
      reopened (Matches (backstage_service b)) b service (replaced (backstage_service b)) live free
        λ a free. with_meta _ a.meta _ free λ meta. record { class = refl; live = refl }
  restored-Safe (db_service none) live free = cc
  restored-Safe (db_service (some a)) live free =
      with_meta _ a.meta _ free λ meta. record { class = refl; live = live }
  restored-Safe (db_stateful_set none) live free = cc
  restored-Safe (db_stateful_set (some a)) live free =
      with_meta _ a.meta _ free λ meta. record { class = refl; live = live }
  restored-Safe (backstage_deployment none) live free = cc
  restored-Safe (backstage_deployment (some a)) live free =
      with_meta _ a.meta _ free λ meta. record { class = refl; live = live }

  pub set_meta_info-Safe :
      (o : RuntimeObject)
      → is_sound o ≡ true
      → is_unowned o ≡ true
      → Safe (Matches o) (set_meta_info p backstage owns o)
  unfolding set_meta_info
  set_meta_info-Safe o live free =
      Safe-bind (Matches o) (set_object_meta_info o backstage.meta.name) _
        (Safe-both (Matches o) (λ o'. is_unowned o' ≡ true) _
          (set_object_meta_info-Safe o backstage.meta.name live)
          (class_meta-unowned o backstage.meta.name free))
        λ o' (h, free').
          Safe-map (Matches o') (Matches o) _ (restored-Safe o' h.live free')
            λ o'' h'. record { class = h'.class ∙ h.class; live = h'.live }
