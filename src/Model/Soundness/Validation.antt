-- ===== src/Model/Soundness/Validation.antt =====
-- The second phase of InitObjects on a sound model: no validate panics, and the model stays sound.
use native.Mathlib.Decide.{dec_lt}
use janus_idp_operator.Prelude.{
  ◌<◌, true, not, ◌||◌, none, some, is_some, ◌≡◌, refl, ◌∙◌, sym, arith, List-cases, inl, inr,
}
use janus_idp_operator.GoError.{ok, ◌>>=◌, Safe}
use janus_idp_operator.GoError.Safety.{Safe-bind, Safe-if, Safe-option}
use janus_idp_operator.Kube.{Route, Secret, Workload}
use janus_idp_operator.Api.{BackstageSpec, is_auth_secret_specified, is_local_db_enabled}
use janus_idp_operator.Platform.{Platform}
use janus_idp_operator.Model.Objects.{
  RuntimeObject, type_code, app_config, config_map_envs, config_map_files, db_secret, db_service,
  db_stateful_set, backstage_deployment, dynamic_plugins, backstage_route, secret_envs,
  secret_files, backstage_service,
}
use janus_idp_operator.Model.State.{Ref, BackstageModel, store}
use janus_idp_operator.Model.Pods.{pod_of}
use janus_idp_operator.Model.BackstageRoute
use janus_idp_operator.Model.DbSecret
use janus_idp_operator.Model.DbSecret.{first_port, local_db_service_of, fill_secret}
use janus_idp_operator.Model.DbStatefulSet
use janus_idp_operator.Model.DbStatefulSet.{set_db_envs_from_secret}
use janus_idp_operator.Model.Deployment
use janus_idp_operator.Model.DynamicPlugins
use janus_idp_operator.Model.DynamicPlugins.{dynamic_plugins_init_container}
use janus_idp_operator.Model.Methods.{validate}
use janus_idp_operator.Model.Soundness.{is_sound, is_typed, has_any, IsSound}
use janus_idp_operator.Model.Soundness.Heaps.{Follows, Extends-refl, store-Follows}
use janus_idp_operator.Model.Soundness.Workloads.{IsComplete, change_container-Safe}
use janus_idp_operator.Model.Soundness.Finish.{finish-Safe}
use janus_idp_operator.Model.Soundness.Cells.{
  secret_of_typed, service_of_typed, db_service_of_typed, deployment_of_typed, load-some,
}

-- A sound model with a deployment and a service, and with the database's objects if it is enabled.
pub record IsFinished (m : BackstageModel) : Type 0 where
  pub sound : IsSound m
  pub deployment : is_some m.backstage_deployment_ref ≡ true
  pub service : is_some m.backstage_service_ref ≡ true
  pub stateful_set : m.local_db_enabled ≡ true → is_some m.local_db_stateful_set ≡ true
  pub db_service : m.local_db_enabled ≡ true → is_some m.local_db_service ≡ true

pub IsFinished-Follows : (m m' : BackstageModel) → Follows m m' → IsFinished m → IsFinished m'
IsFinished-Follows m m' f s = record {
  sound = f.sound;
  deployment = f.extends.deployment s.deployment;
  service = f.extends.service s.service;
  stateful_set = λ e. f.extends.stateful_set (s.stateful_set (sym f.extends.local_db ∙ e));
  db_service = λ e. f.extends.db_service (s.db_service (sym f.extends.local_db ∙ e));
}

pub Follows-refl : (m : BackstageModel) → IsSound m → Follows m m
Follows-refl m s = record { sound = s; extends = Extends-refl m }

-- A cell that holds something has been allocated.
pub allocated :
    (m : BackstageModel) (r : Ref) (o : RuntimeObject) → IsSound m → m.heap r ≡ some o → r < m.next
allocated m r o s e = elim (dec_lt r m.next) [
  | yes l ↦ l
  | no n ↦ cc (e, s.fresh r (omega (arith, n)))
]

-- A write of an object of the same class that is sound.
pub restore-Follows :
    (m : BackstageModel) (r : Ref) (o o' : RuntimeObject)
    → m.heap r ≡ some o
    → type_code o ≡ type_code o'
    → is_sound o' ≡ true
    → IsSound m
    → Follows m (store r o' m)
unfolding is_typed
restore-Follows m r o o' e same_class live s =
    store-Follows m r o' (allocated m r o s e)
      (λ c typed. ground (arith, e, typed, same_class, live)) s

module _ (p : Platform) (m : BackstageModel) (f : IsFinished m) where
  -- The database's service, which the secret describes, is there and has a port.
  fill_secret-Safe :
      (x : Secret) → m.local_db_enabled ≡ true → Safe (λ _. Unit {0}) (fill_secret p x m)
  unfolding fill_secret local_db_service_of
  fill_secret-Safe x enabled =
      Safe-bind (λ _. Unit {0}) (local_db_service_of m) _ found
        λ o has_port. elim (List-cases o.ports) [
          | inl n ↦ cc (n, has_port)
          | inr (port, ports, n) ↦ rw n tt
        ]
    where
      found : Safe (λ o. has_any o.ports ≡ true) (local_db_service_of m)
      found =
          Safe-option _ m.local_db_service _ _ (λ n. cc (n, f.db_service enabled))
            λ r n.
              let (o, e, has_port) = db_service_of_typed (m.heap r) (cc (f.sound.db_service, n)) in
              rw (load-some m r (db_service (some o)) e) has_port

  db_secret-Safe :
      (x : Secret) (r : Ref) (spec : BackstageSpec)
      → m.heap r ≡ some (db_secret (some x))
      → m.local_db_enabled ≡ is_local_db_enabled spec
      → Safe (Follows m) (DbSecret.validate p (some x) r spec m)
  unfolding DbSecret.validate type_code
  db_secret-Safe x r spec e same_setting =
      Safe-if (Follows m) (is_auth_secret_specified spec || not (is_local_db_enabled spec)) _ _
        (λ _. Follows-refl m f.sound)
        λ unspecified.
          Safe-bind (Follows m) (fill_secret p x m >>= λ x'. ok (db_secret (some x'))) _
            (Safe-bind (λ o. (type_code o ≡ 3) × (is_sound o ≡ true)) (fill_secret p x m) _
              (fill_secret-Safe x (ground (arith, unspecified, same_setting))) λ x' _. (refl, refl))
            λ o (code, live). restore-Follows m r (db_secret (some x)) o e (sym code) live f.sound

  stateful_set-Safe :
      (w : Workload) (r : Ref)
      → m.heap r ≡ some (db_stateful_set (some w))
      → IsComplete w
      → Safe (Follows m) (DbStatefulSet.validate (some w) r m)
  unfolding DbStatefulSet.validate type_code set_db_envs_from_secret
  stateful_set-Safe w r e complete =
      Safe-option (Follows m) m.local_db_secret _ _ (λ _. Follows-refl m f.sound)
        λ q n.
          let (x, found) = secret_of_typed (m.heap q) (cc (f.sound.db_secret, n)) in
          rw (load-some m q (db_secret (some x)) found) (
            Safe-bind (Follows m) (set_db_envs_from_secret x.meta.name w) _
              (change_container-Safe _ w complete)
              λ w' complete'.
                restore-Follows m r (db_stateful_set (some w)) (db_stateful_set (some w')) e refl
                  complete' f.sound)

  deployment-Safe :
      (w : Workload) (r : Ref) (spec : BackstageSpec)
      → m.heap r ≡ some (backstage_deployment (some w))
      → IsComplete w
      → Safe (Follows m) (Deployment.validate p (some w) r spec m)
  unfolding Deployment.validate type_code
  deployment-Safe w r spec e complete =
      Safe-bind (Follows m) (Deployment.finish p w spec m) _
        (finish-Safe p w spec m f.sound.objects f.sound.db_secret complete)
        λ w' complete'.
          restore-Follows m r (backstage_deployment (some w)) (backstage_deployment (some w')) e
            refl complete' f.sound

  plugins-Safe : Safe (Follows m) (DynamicPlugins.validate p m)
  unfolding DynamicPlugins.validate
  plugins-Safe =
      Safe-option (Follows m) m.backstage_deployment_ref _ _ (λ n. cc (n, f.deployment))
        λ r n.
          let (w, found, complete) = deployment_of_typed (m.heap r) (cc (f.sound.deployment, n)) in
          rw (load-some m r (backstage_deployment (some w)) found) (
            Safe-option (Follows m) (dynamic_plugins_init_container (pod_of w).init_containers) _ _
              (λ _. tt) λ ic _. Follows-refl m f.sound)

  route-Safe :
      (x : Route) (r : Ref)
      → m.heap r ≡ some (backstage_route (some x))
      → Safe (Follows m) (BackstageRoute.validate (some x) r m)
  unfolding BackstageRoute.validate type_code
  route-Safe x r e =
      Safe-option (Follows m) m.backstage_service_ref _ _ (λ n. cc (n, f.service))
        λ q n.
          let (o, found) = service_of_typed (m.heap q) (cc (f.sound.service, n)) in
          rw (load-some m q (backstage_service (some o)) found) (
            restore-Follows m r (backstage_route (some x)) (backstage_route (some _)) e refl refl
              f.sound)

  pub validate-Safe :
      (o : RuntimeObject) (r : Ref) (spec : BackstageSpec)
      → m.heap r ≡ some o
      → is_sound o ≡ true
      → m.local_db_enabled ≡ is_local_db_enabled spec
      → Safe (Follows m) (validate p o r spec m)
  unfolding validate
  validate-Safe (db_secret none) r spec e live same_setting = cc
  validate-Safe (db_secret (some x)) r spec e live same_setting =
      db_secret-Safe x r spec e same_setting
  validate-Safe (db_stateful_set none) r spec e live same_setting = cc
  validate-Safe (db_stateful_set (some w)) r spec e live same_setting = stateful_set-Safe w r e live
  validate-Safe (backstage_deployment none) r spec e live same_setting = cc
  validate-Safe (backstage_deployment (some w)) r spec e live same_setting =
      deployment-Safe w r spec e live
  validate-Safe (dynamic_plugins b) r spec e live same_setting = plugins-Safe
  validate-Safe (backstage_route none) r spec e live same_setting = cc
  validate-Safe (backstage_route (some x)) r spec e live same_setting = route-Safe x r e
  validate-Safe (app_config b) r spec e live same_setting = Follows-refl m f.sound
  validate-Safe (config_map_envs b) r spec e live same_setting = Follows-refl m f.sound
  validate-Safe (config_map_files b) r spec e live same_setting = Follows-refl m f.sound
  validate-Safe (db_service b) r spec e live same_setting = Follows-refl m f.sound
  validate-Safe (secret_envs b) r spec e live same_setting = Follows-refl m f.sound
  validate-Safe (secret_files b) r spec e live same_setting = Follows-refl m f.sound
  validate-Safe (backstage_service b) r spec e live same_setting = Follows-refl m f.sound
