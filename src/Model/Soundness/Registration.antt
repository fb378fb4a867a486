-- ===== src/Model/Soundness/Registration.antt =====
-- addToModel of each class, on a sound model with the object in a new cell.
use janus_idp_operator.Prelude.{
  ◌<◌, true, false, not, ◌&&◌, ◌||◌, Option, none, some, is_some, ◌≡◌, refl, arith, same_refl,
  Option-cases, inl, inr, non_empty, if◌then◌else◌,
}
use janus_idp_operator.GoError.{Safe}
use janus_idp_operator.GoError.Safety.{Safe-if, Safe-option}
use janus_idp_operator.Kube.{ConfigMap, Route, Service}
use janus_idp_operator.Api.{BackstageSpec, RouteSpec, is_route_empty, is_route_enabled, route_of}
use janus_idp_operator.Platform.{Platform}
use janus_idp_operator.Model.Objects.{
  RuntimeObject, type_code, app_config, config_map_envs, config_map_files, db_secret, db_service,
  db_stateful_set, backstage_deployment, dynamic_plugins, backstage_route, secret_envs,
  secret_files, backstage_service,
}
use janus_idp_operator.Model.State.{Ref, BackstageModel, store, set_runtime_object}
use janus_idp_operator.Model.AppConfig
use janus_idp_operator.Model.BackstageRoute
use janus_idp_operator.Model.BackstageService
use janus_idp_operator.Model.ConfigMapEnvs
use janus_idp_operator.Model.ConfigMapFiles
use janus_idp_operator.Model.DynamicPlugins
use janus_idp_operator.Model.DynamicPlugins.{plugins_name}
use janus_idp_operator.Model.SecretEnvs
use janus_idp_operator.Model.SecretFiles
use janus_idp_operator.Model.Methods.{add_to_model}
use janus_idp_operator.Model.Soundness.{is_sound_or_nil, is_typed, IsSound}
use janus_idp_operator.Model.Soundness.Heaps.{
  Follows, Follows-trans, store-Follows, set_runtime_object-Follows,
}
use janus_idp_operator.Model.Soundness.Adding.{
  others, Added, service_is_set, skipped, listed, repointed,
}
use janus_idp_operator.Model.Soundness.Holders.{
  typed_at, db_secret-Added, db_service-Added, stateful_set-Added, deployment-Added,
}

-- The spec's route, if it has one, leaves something out.
abbrev pub IsPartial : BackstageSpec → Type 0
IsPartial spec = (x : RouteSpec) → route_of spec ≡ some x → is_route_empty x ≡ false

route_taken :
    (b : Option Route) (spec : BackstageSpec)
    → IsPartial spec
    → (not (is_some b) && not (is_route_enabled spec)) ≡ false
    → is_some (if is_route_enabled spec then BackstageRoute.load_from_spec (route_of spec) b else b)
      ≡ true
unfolding is_route_enabled
route_taken b spec partial wanted = elim (Option-cases (route_of spec)) [
  | inl n ↦ ground (arith, n, wanted)
  | inr (x, n) ↦ ground (arith, n, wanted, partial x n)
]

module _ (p : Platform) (r : Ref) (m : BackstageModel) (s : IsSound m) (below : r < m.next) where
  service-Added :
      (b : Option Service)
      → m.heap r ≡ some (backstage_service b)
      → Safe (Added r 11 m) (BackstageService.add_to_model b r m)
  unfolding BackstageService.add_to_model type_code set_runtime_object
  service-Added none e = tt
  service-Added (some x) e =
      let o = backstage_service (some x) in
      let m₁ = record m { backstage_service_ref = some r } in
      let f =
        repointed m m.backstage_deployment_ref (some r) m.local_db_stateful_set m.local_db_service
          m.local_db_secret m.route_ref s s.deployment (typed_at m r o 11 e refl refl)
          s.stateful_set s.db_service s.db_secret s.route (λ q. q) (λ q. refl) (λ q. q) (λ q. q) in
      record {
        follows =
            Follows-trans m m₁ (set_runtime_object r o m₁) f
              (set_runtime_object-Follows m₁ r o e (cc e) (λ _. rw e refl) f.sound);
        live = λ _. cc e;
        registered = service_is_set _ refl;
      }

  plugins-Added :
      (b : Option ConfigMap) (spec : BackstageSpec)
      → m.heap r ≡ some (dynamic_plugins b)
      → Safe (Added r 7 m) (DynamicPlugins.add_to_model b r spec m)
  unfolding DynamicPlugins.add_to_model
  plugins-Added none spec e = skipped r 7 m s (others 7 m refl)
  plugins-Added (some x) spec e =
      Safe-if (Added r 7 m) (non_empty (plugins_name spec)) _ _
        (λ _. skipped r 7 m s (others 7 m refl))
        (λ _. listed r (dynamic_plugins (some x)) 7 m e refl refl s refl)

  -- A route that is taken is not nil: the spec's is partial.
  route-Added :
      (b : Option Route) (spec : BackstageSpec)
      → IsPartial spec
      → m.heap r ≡ some (backstage_route b)
      → Safe (Added r 8 m) (BackstageRoute.add_to_model b r spec m)
  unfolding BackstageRoute.add_to_model set_runtime_object type_code is_typed
  route-Added b spec partial e =
      Safe-if (Added r 8 m) ((not (is_some b) && not (is_route_enabled spec)) || not m.is_openshift)
        _ _ (λ _. skipped r 8 m s (others 8 m refl))
        (λ wanted.
          taken
            (if is_route_enabled spec then BackstageRoute.load_from_spec (route_of spec) b else b)
            (route_taken b spec partial (ground (arith, wanted))))
    where
      taken :
          (x : Option Route)
          → is_some x ≡ true
          → Added r 8 m (
            true,
            set_runtime_object r
                (backstage_route x)
                (record (store r (backstage_route x) m) { route_ref = some r }),
          )
      taken x live =
          let o = backstage_route x in
          let m₁ = store r o m in
          let f : Follows m m₁ =
            store-Follows m r o below (λ c typed. ground (arith, e, typed, live)) s in
          let m₂ = record m₁ { route_ref = some r } in
          let f₁ : Follows m₁ m₂ =
            repointed m₁ m.backstage_deployment_ref m.backstage_service_ref m.local_db_stateful_set
              m.local_db_service m.local_db_secret (some r) f.sound f.sound.deployment
              f.sound.service f.sound.stateful_set f.sound.db_service f.sound.db_secret
              (rw (same_refl r) live) (λ q. q) (λ q. q) (λ q. q) (λ q. q) in
          record {
            follows = Follows-trans m m₁ (set_runtime_object r o m₂) f (
                Follows-trans m₁ m₂ (set_runtime_object r o m₂) f₁ (
                  set_runtime_object-Follows m₂ r o (rw (same_refl r) refl) (rw (same_refl r) live)
                    (λ _. rw (same_refl r, live) refl) f₁.sound));
            live = λ _. rw (same_refl r) live;
            registered = others 8 _ refl;
          }

  -- addToModel does not panic; it leaves a sound model, in which the object is sound if it was added.
  pub add_to_model-Safe :
      (o : RuntimeObject) (spec : BackstageSpec)
      → IsPartial spec
      → m.heap r ≡ some o
      → is_sound_or_nil o ≡ true
      → Safe (Added r (type_code o) m) (add_to_model p o r spec m)
  unfolding add_to_model type_code AppConfig.add_to_model ConfigMapEnvs.add_to_model
      ConfigMapFiles.add_to_model SecretEnvs.add_to_model SecretFiles.add_to_model
  add_to_model-Safe (app_config b) spec partial e live =
      Safe-option (Added r 0 m) b.object _ _ (λ _. skipped r 0 m s (others 0 m refl))
        λ o n. listed r (app_config b) 0 m e (cc n) refl s refl
  add_to_model-Safe (config_map_envs b) spec partial e live =
      Safe-option (Added r 1 m) b.object _ _ (λ _. skipped r 1 m s (others 1 m refl))
        λ o n. listed r (config_map_envs b) 1 m e (cc n) refl s refl
  add_to_model-Safe (config_map_files b) spec partial e live =
      Safe-option (Added r 2 m) b.object _ _ (λ _. skipped r 2 m s (others 2 m refl))
        λ o n. listed r (config_map_files b) 2 m e (cc n) refl s refl
  add_to_model-Safe (db_secret b) spec partial e live = db_secret-Added p r m s below b e
  add_to_model-Safe (db_service b) spec partial e live = db_service-Added p r m s below b e live
  add_to_model-Safe (db_stateful_set b) spec partial e live =
      stateful_set-Added p r m s below b e live
  add_to_model-Safe (backstage_deployment b) spec partial e live =
      deployment-Added p r m s below b e live
  add_to_model-Safe (dynamic_plugins b) spec partial e live = plugins-Added b spec e
  add_to_model-Safe (backstage_route b) spec partial e live = route-Added b spec partial e
  add_to_model-Safe (secret_envs b) spec partial e live =
      Safe-option (Added r 9 m) b.object _ _ (λ _. skipped r 9 m s (others 9 m refl))
        λ o n. listed r (secret_envs b) 9 m e (cc n) refl s refl
  add_to_model-Safe (secret_files b) spec partial e live =
      Safe-option (Added r 10 m) b.object _ _ (λ _. skipped r 10 m s (others 10 m refl))
        λ o n. listed r (secret_files b) 10 m e (cc n) refl s refl
  add_to_model-Safe (backstage_service b) spec partial e live = service-Added b e
