-- ===== src/Model/Soundness/Holders.antt =====
-- addToModel of the database's objects and of the deployment, on a sound model with the object in a
-- new cell.
use janus_idp_operator.Prelude.{
  ℕ, ◌<◌, true, false, Option, none, some, ◌≡◌, refl, arith, same_refl,
}
use janus_idp_operator.GoError.{Safe}
use janus_idp_operator.GoError.Safety.{Safe-bind, Safe-if}
use janus_idp_operator.Kube.{Secret, Service, Workload}
use janus_idp_operator.Platform.{Platform}
use janus_idp_operator.Model.Objects.{
  RuntimeObject, type_code, db_secret, db_service, db_stateful_set, backstage_deployment,
}
use janus_idp_operator.Model.State.{Ref, BackstageModel, store, set_runtime_object}
use janus_idp_operator.Model.DbSecret
use janus_idp_operator.Model.DbService
use janus_idp_operator.Model.DbStatefulSet
use janus_idp_operator.Model.Deployment
use janus_idp_operator.Model.Soundness.{is_db_object, is_sound, is_sound_or_nil, is_typed, IsSound}
use janus_idp_operator.Model.Soundness.Heaps.{Follows, Follows-trans, set_runtime_object-Follows}
use janus_idp_operator.Model.Soundness.Workloads.{override_db_image-Safe, override_image-Safe}
use janus_idp_operator.Model.Soundness.Validation.{restore-Follows}
use janus_idp_operator.Model.Soundness.Adding.{
  Registered, others, Added, local_db_off, deployment_is_set, stateful_set_is_set,
  db_service_is_set, skipped, repointed,
}

pub typed_at :
    (m : BackstageModel) (r : Ref) (o : RuntimeObject) (c : ℕ)
    → m.heap r ≡ some o
    → is_sound o ≡ true
    → type_code o ≡ c
    → is_typed c (m.heap r) ≡ true
unfolding is_typed
typed_at m r o c e live q = ground (arith, e, live, q)

module _ (p : Platform) (r : Ref) (m : BackstageModel) (s : IsSound m) (below : r < m.next) where
  pub db_secret-Added :
      (b : Option Secret)
      → m.heap r ≡ some (db_secret b)
      → Safe (Added r 3 m) (DbSecret.add_to_model b r m)
  unfolding DbSecret.add_to_model type_code set_runtime_object
  db_secret-Added none e = skipped r 3 m s (others 3 m refl)
  db_secret-Added (some x) e =
      Safe-if (Added r 3 m) m.local_db_enabled _ _
        (λ on.
          let o = db_secret (some x) in
          let typed = typed_at m r o 3 e refl refl in
          let f = set_runtime_object-Follows m r o e (cc e) (λ off. cc (on, off)) s in
          let m₁ = set_runtime_object r o m in
          record {
            follows =
                Follows-trans m m₁ (record m₁ { local_db_secret = some r }) f
                  (repointed m₁ m.backstage_deployment_ref m.backstage_service_ref
                    m.local_db_stateful_set m.local_db_service (some r) m.route_ref f.sound
                    s.deployment s.service s.stateful_set s.db_service typed s.route (λ q. q)
                    (λ q. q) (λ q. q) (λ q. q));
            live = λ _. cc e;
            registered = others 3 _ refl;
          })
        (λ _. skipped r 3 m s (others 3 m refl))

  pub db_service-Added :
      (b : Option Service)
      → m.heap r ≡ some (db_service b)
      → is_sound_or_nil (db_service b) ≡ true
      → Safe (Added r 4 m) (DbService.add_to_model b r m)
  unfolding DbService.add_to_model type_code set_runtime_object
  db_service-Added none e live =
      Safe-if (Added r 4 m) m.local_db_enabled _ _ (λ _. tt)
        (λ off. skipped r 4 m s (local_db_off 4 m off refl))
  db_service-Added (some x) e live =
      Safe-if (Added r 4 m) m.local_db_enabled _ _
        (λ on.
          let o = db_service (some x) in
          let m₁ = record m { local_db_service = some r } in
          let f =
            repointed m m.backstage_deployment_ref m.backstage_service_ref m.local_db_stateful_set
              (some r) m.local_db_secret m.route_ref s s.deployment s.service s.stateful_set
              (typed_at m r o 4 e live refl) s.db_secret s.route (λ q. q) (λ q. q) (λ q. q)
              (λ q. refl) in
          record {
            follows =
                Follows-trans m m₁ (set_runtime_object r o m₁) f (
                  set_runtime_object-Follows m₁ r o e (cc (e, live)) (λ off. cc (on, off)) f.sound);
            live = λ _. cc (e, live);
            registered = db_service_is_set _ refl;
          })
        (λ off. skipped r 4 m s (local_db_off 4 m off refl))

  -- A workload: its pointer is set, it is listed, and its image may be overridden.
  workload-Added :
      (c : ℕ) (old new : RuntimeObject) (m₁ : BackstageModel)
      → m₁.heap r ≡ some old
      → r < m₁.next
      → type_code old ≡ type_code new
      → is_sound old ≡ true
      → is_sound new ≡ true
      → (m₁.local_db_enabled ≡ false → is_db_object old ≡ false)
      → Follows m m₁
      → Registered c (store r new (set_runtime_object r old m₁))
      → Added r c m (true, store r new (set_runtime_object r old m₁))
  unfolding set_runtime_object
  workload-Added c old new m₁ e below₁ same_class live live' plain f g =
      let m₂ = set_runtime_object r old m₁ in
      let f₁ =
        set_runtime_object-Follows m₁ r old e (cc (e, live)) (λ off. rw (e, live, plain off) refl)
          f.sound in
      record {
        follows = Follows-trans m m₁ (store r new m₂) f (
            Follows-trans m₁ m₂ (store r new m₂) f₁
              (restore-Follows m₂ r old new e same_class live' f₁.sound));
        live = λ _. rw (same_refl r) live';
        registered = g;
      }

  pub stateful_set-Added :
      (b : Option Workload)
      → m.heap r ≡ some (db_stateful_set b)
      → is_sound_or_nil (db_stateful_set b) ≡ true
      → Safe (Added r 5 m) (DbStatefulSet.add_to_model p b r m)
  unfolding DbStatefulSet.add_to_model type_code
  stateful_set-Added none e live =
      Safe-if (Added r 5 m) m.local_db_enabled _ _ (λ _. tt)
        (λ off. skipped r 5 m s (local_db_off 5 m off refl))
  stateful_set-Added (some w) e live =
      Safe-if (Added r 5 m) m.local_db_enabled _ _
        (λ on.
          Safe-bind (Added r 5 m) (DbStatefulSet.override_image p w) _
            (override_db_image-Safe p w live)
            λ w' live'.
              workload-Added 5 (db_stateful_set (some w)) (db_stateful_set (some w'))
                (record m { local_db_stateful_set = some r }) e below refl live live'
                (λ off. cc (on, off))
                (repointed m m.backstage_deployment_ref m.backstage_service_ref (some r)
                  m.local_db_service m.local_db_secret m.route_ref s s.deployment s.service
                  (typed_at m r (db_stateful_set (some w)) 5 e live refl) s.db_service s.db_secret
                  s.route (λ q. q) (λ q. q) (λ q. refl) (λ q. q))
                (stateful_set_is_set _ refl))
        (λ off. skipped r 5 m s (local_db_off 5 m off refl))

  pub deployment-Added :
      (b : Option Workload)
      → m.heap r ≡ some (backstage_deployment b)
      → is_sound_or_nil (backstage_deployment b) ≡ true
      → Safe (Added r 6 m) (Deployment.add_to_model p b r m)
  unfolding Deployment.add_to_model type_code
  deployment-Added none e live = tt
  deployment-Added (some w) e live =
      Safe-bind (Added r 6 m) (Deployment.override_image p w) _ (override_image-Safe p w live)
        λ w' live'.
          workload-Added 6 (backstage_deployment (some w)) (backstage_deployment (some w'))
            (record m { backstage_deployment_ref = some r }) e below refl live live' (λ _. refl)
            (repointed m (some r) m.backstage_service_ref m.local_db_stateful_set m.local_db_service
              m.local_db_secret m.route_ref s
              (typed_at m r (backstage_deployment (some w)) 6 e live refl) s.service s.stateful_set
              s.db_service s.db_secret s.route (λ q. refl) (λ q. q) (λ q. q) (λ q. q))
            (deployment_is_set _ refl)
