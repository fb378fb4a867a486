-- ===== src/Model/Returns/Validation.antt =====
-- The second phase of InitObjects returns no error.
use janus_idp_operator.Prelude.{
  ℤ, Bool, true, not, ◌||◌, Option, none, some, List, [], ◌∷◌, ◌≡◌, refl, ◌^◌,
}
use janus_idp_operator.GoError.{Any, ok, err, panic, Outcome, errorf, error_text}
use janus_idp_operator.GoError.Errless.{Errless, Errless-bind, Errless-if, Errless-option}
use janus_idp_operator.Kube.{Route, Secret, Workload}
use janus_idp_operator.Api.{BackstageSpec, is_auth_secret_specified, is_local_db_enabled}
use janus_idp_operator.Platform.{Platform}
use janus_idp_operator.Model.Objects.{
  RuntimeObject, db_secret, db_service, db_stateful_set, backstage_deployment, dynamic_plugins,
  backstage_route, backstage_service,
}
use janus_idp_operator.Model.State.{ExternalConfig, Ref, BackstageModel, load}
use janus_idp_operator.Model.Pods.{pod_of}
use janus_idp_operator.Model.BackstageRoute
use janus_idp_operator.Model.BackstageRoute.{service_of}
use janus_idp_operator.Model.DbSecret
use janus_idp_operator.Model.DbSecret.{
  first_port, local_db_service_of, db_service_of, fill_secret, fill_object,
}
use janus_idp_operator.Model.DbStatefulSet
use janus_idp_operator.Model.DbStatefulSet.{set_db_envs_from_secret, secret_of}
use janus_idp_operator.Model.Deployment
use janus_idp_operator.Model.DynamicPlugins
use janus_idp_operator.Model.DynamicPlugins.{dynamic_plugins_init_container, deployment_of}
use janus_idp_operator.Model.Methods.{validate}
use janus_idp_operator.Model.Runtime.{validate_each}
use janus_idp_operator.Model.Returns.{installer_in, IsReady, store-IsReady}
use janus_idp_operator.Model.Returns.Pods.{change_container-returns}
use janus_idp_operator.Model.Returns.FromSpec.{HaveKeys, file_secrets}
use janus_idp_operator.Model.Returns.Finish.{finish-Errless, load-Errless, secret_of-Errless}

first_port-Errless : (ports : List ℤ) → Errless Any (first_port ports)
first_port-Errless [] = tt
first_port-Errless (port ∷ ports) = tt

db_service_of-Errless : (o : RuntimeObject) → Errless Any (db_service_of o)
db_service_of-Errless (db_service none) = tt
db_service_of-Errless (db_service (some x)) = tt
db_service_of-Errless _ = tt

service_of-Errless : (o : RuntimeObject) → Errless Any (service_of o)
service_of-Errless (backstage_service none) = tt
service_of-Errless (backstage_service (some x)) = tt
service_of-Errless _ = tt

-- The deployment that is read has the installer.
deployment_of-Errless :
    (p : Platform) (o : RuntimeObject)
    → installer_in o ≡ true
    → Errless (λ w. installer_in (backstage_deployment (some w)) ≡ true) (deployment_of p o)
deployment_of-Errless p (backstage_deployment none) e = tt
deployment_of-Errless p (backstage_deployment (some w)) e = e
deployment_of-Errless p _ e = tt

module _ (p : Platform) (spec : BackstageSpec) (keys : HaveKeys (file_secrets spec))
    (local_db : Bool) (external : ExternalConfig) where
  abbrev Ready : BackstageModel → Type 0
  Ready = IsReady local_db external

  fill_object-Errless :
      (b : Option Secret) (m : BackstageModel)
      → Errless (λ o. installer_in o ≡ true) (fill_object p b m)
  unfolding fill_secret local_db_service_of
  fill_object-Errless none m = tt
  fill_object-Errless (some x) m =
      Errless-bind _ (fill_secret p x m) _
        (Errless-bind Any (local_db_service_of m) _
          (Errless-option Any m.local_db_service _ _ (λ _. tt)
            λ r _.
              Errless-bind Any (load m r) _ (load-Errless m r) λ o _ _. db_service_of-Errless o)
          λ o _ _. Errless-bind Any (first_port o.ports) _ (first_port-Errless o.ports) λ _ _ _. tt)
        λ x' _ _. refl

  db_secret-Errless :
      (b : Option Secret) (r : Ref) (m : BackstageModel)
      → Ready m
      → Errless Ready (DbSecret.validate p b r spec m)
  unfolding DbSecret.validate
  db_secret-Errless b r m ready =
      Errless-if Ready (is_auth_secret_specified spec || not (is_local_db_enabled spec)) _ _
        (λ _. ready)
        λ _.
          Errless-bind Ready (fill_object p b m) _ (fill_object-Errless b m)
            λ o _ e. store-IsReady local_db external m r o e ready

  stateful_set-Errless :
      (b : Option Workload) (r : Ref) (m : BackstageModel)
      → Ready m
      → Errless Ready (DbStatefulSet.validate b r m)
  unfolding DbStatefulSet.validate set_db_envs_from_secret
  stateful_set-Errless b r m ready =
      Errless-option Ready m.local_db_secret _ _ (λ _. ready)
        λ q _. Errless-bind Ready (load m q) _ (load-Errless m q) λ o _ _.
          Errless-bind Ready (secret_of o) _ (secret_of-Errless o) λ x _ _.
            Errless-option Ready b _ _ (λ _. tt)
              λ w _.
                Errless-bind {P = Any} Ready (set_db_envs_from_secret x.meta.name w) _
                  (change_container-returns _ w)
                  λ w' _ _.
                    store-IsReady local_db external m r (db_stateful_set (some w')) refl ready

  deployment-Errless :
      (b : Option Workload) (r : Ref) (m : BackstageModel)
      → installer_in (backstage_deployment b) ≡ true
      → Ready m
      → Errless Ready (Deployment.validate p b r spec m)
  unfolding Deployment.validate
  deployment-Errless none r m e ready = tt
  deployment-Errless (some w) r m e ready =
      Errless-bind Ready (Deployment.finish p w spec m) _ (finish-Errless p m w spec keys e)
        λ w' _ e'. store-IsReady local_db external m r (backstage_deployment (some w')) e' ready

  plugins-Errless : (m : BackstageModel) → Ready m → Errless Ready (DynamicPlugins.validate p m)
  unfolding DynamicPlugins.validate
  plugins-Errless m ready =
      Errless-option Ready m.backstage_deployment_ref _ _ (λ _. tt)
        λ r _. Errless-bind Ready (load m r) _ (load-Errless m r) λ o _ n.
          Errless-bind Ready (deployment_of p o) _
            (deployment_of-Errless p o (cc (ready.installers r, n)))
            λ w _ e.
              Errless-option Ready (dynamic_plugins_init_container (pod_of w).init_containers) _ _
                (λ missing. cc (e, missing)) λ ic _. ready

  route-Errless :
      (b : Option Route) (r : Ref) (m : BackstageModel)
      → Ready m
      → Errless Ready (BackstageRoute.validate b r m)
  unfolding BackstageRoute.validate
  route-Errless b r m ready =
      Errless-option Ready m.backstage_service_ref _ _ (λ _. tt)
        λ q _. Errless-bind Ready (load m q) _ (load-Errless m q) λ o _ _.
          Errless-bind Ready (service_of o) _ (service_of-Errless o) λ x _ _.
            Errless-option Ready b _ _ (λ _. tt)
              λ y _. store-IsReady local_db external m r (backstage_route (some _)) refl ready

  validate-Errless :
      (o : RuntimeObject) (r : Ref) (m : BackstageModel)
      → installer_in o ≡ true
      → Ready m
      → Errless Ready (validate p o r spec m)
  unfolding validate
  validate-Errless (db_secret b) r m e ready = db_secret-Errless b r m ready
  validate-Errless (db_stateful_set b) r m e ready = stateful_set-Errless b r m ready
  validate-Errless (backstage_deployment b) r m e ready = deployment-Errless b r m e ready
  validate-Errless (dynamic_plugins b) r m e ready = plugins-Errless m ready
  validate-Errless (backstage_route b) r m e ready = route-Errless b r m ready
  validate-Errless _ r m e ready = ready

  -- The loop over the runtime objects.
  pub validate_each-Errless :
      (rs : List Ref) (m : BackstageModel) → Ready m → Errless Ready (validate_each p spec rs m)
  unfolding validate_each
  validate_each-Errless [] m ready = ready
  validate_each-Errless (r ∷ rs) m ready =
      Errless-bind Ready (load m r) _ (load-Errless m r) λ o _ n.
        next (validate p o r spec m) (validate-Errless o r m (cc (ready.installers r, n)) ready)
          λ m' ready'. validate_each-Errless rs m' ready'
    where
      next :
          (x : Outcome BackstageModel)
          → Errless Ready x
          → ((m' : BackstageModel) → Ready m' → Errless Ready (validate_each p spec rs m'))
          → Errless Ready (elim x [
            | ok m' ↦ validate_each p spec rs m'
            | err e ↦ err (errorf ("failed object validation, reason: " ^ error_text e))
            | panic ↦ panic
          ])
      next (ok m') ready' more = more m' ready'
      next (err e) h more = h
      next panic h more = tt
