-- ===== src/Controller/Reconcile.antt =====
-- Reconcile, errorAndStatus and setStatusCondition of controllers/backstage_controller.go.
pub mod Status
pub mod Access
pub mod Ignored
pub mod Panics
pub mod Slices
pub mod Achieves
pub mod Deploys
pub mod Bounds
use janus_idp_operator.Prelude.{
  String, Bool, not, ◌&&◌, List, [], ◌∷◌, ◌==◌, ◌^◌, non_empty, if◌then◌else◌,
}
use janus_idp_operator.GoError.{
  GoError, wrap, error_text, has_reason, not_found, Outcome, ok, err, panic, Reply, answered,
  failed, ◌>>=◌ as and_then,
}
use janus_idp_operator.Api.{
  Backstage, condition_type_deployed, condition_reason_deployed, condition_reason_failed,
  condition_reason_in_progress,
}
use janus_idp_operator.Platform.{Platform}
use janus_idp_operator.Model.Objects.{RuntimeObject}
use janus_idp_operator.Model.State.{ExternalConfig, Ref, BackstageModel, load}
use janus_idp_operator.Model.Runtime.{init_objects}
use janus_idp_operator.Controller.Exec.{Exec, pure, raise, lift, ◌>>=◌, ◌>>◌}
use janus_idp_operator.Controller.Requests.{
  Server, History, NamespacedName, update_status, send_get_backstage, send_write,
}
use janus_idp_operator.Controller.Preprocess.{preprocess_spec}
use janus_idp_operator.Controller.Apply.{apply_objects}
use janus_idp_operator.Controller.Clean.{clean_objects}

-- The fields of BackstageReconciler beside the client and the scheme.
pub record Reconciler : Type 0 where
  pub owns_runtime : Bool
  pub namespace : String
  pub is_openshift : Bool

-- The resource being reconciled, whose status is written, and the requests so far.
abbrev pub Session : Type 0
Session = Backstage × History

-- bsModel.RuntimeObjects, with the objects that its pointers stand for.
unfoldable pub objects_at : BackstageModel → List Ref → Outcome (List RuntimeObject)
unfolding load
objects_at m [] = ok []
objects_at m (r ∷ rs) = and_then (load m r) (λ o. and_then (objects_at m rs) (λ os. ok (o ∷ os)))

module _ (p : Platform) where
  unfoldable pub set_status_condition :
      Backstage → (cond_type status reason msg : String) → Backstage
  set_status_condition b cond_type status reason msg = record b {
    status = record {
      conditions =
          p.set_condition b.status.conditions
            (record { cond_type = cond_type; status = status; reason = reason; message = msg });
    };
  }

  unfoldable pub error_and_status : Backstage → String → GoError → Backstage × GoError
  unfolding set_status_condition
  error_and_status b msg e = (
    set_status_condition b condition_type_deployed "False" condition_reason_failed
        (msg ^ " " ^ error_text e),
    wrap (msg ^ " ") e,
  )

  abbrev pub staged : {A : Type 0} → String → Outcome A → Exec Session A
  staged msg (ok a) (b, h) = (ok a, (b, h))
  staged msg (err e) (b, h) = let (b', e') = error_and_status b msg e in (err e', (b', h))
  staged msg panic (b, h) = (panic, (b, h))

  -- One call of Reconcile that may fail; its error ends Reconcile by errorAndStatus.
  abbrev pub stage : {A : Type 0} → String → Exec History A → Exec Session A
  stage msg m (b, h) = let (o, h') = m h in staged msg o (b, h')

  abbrev pub mark_deployed : Exec Session (Unit {0})
  mark_deployed (b, h) = (
    ok tt,
    (set_status_condition b condition_type_deployed "True" condition_reason_deployed "", h),
  )

  unfoldable pub begin : Backstage → Backstage
  unfolding set_status_condition
  begin b = elim b.status.conditions [
    | [] ↦
        set_status_condition b condition_type_deployed "False" condition_reason_in_progress
          "Deployment process started"
    | c ∷ cs ↦ b
  ]

  module _ (s : Server) (r : Reconciler) where
    unfoldable pub preprocess_stage : Backstage → Exec Session ExternalConfig
    unfolding error_and_status preprocess_spec
    preprocess_stage b = stage "failed to preprocess backstage spec" (preprocess_spec p s b)

    unfoldable pub init_stage : Backstage → ExternalConfig → Exec Session BackstageModel
    unfolding error_and_status init_objects
    init_stage b external =
        stage "failed to initialize backstage model"
          (lift (init_objects p b external r.owns_runtime r.is_openshift))

    unfoldable pub read_stage : BackstageModel → Exec Session (List RuntimeObject)
    unfolding objects_at
    read_stage m = lift (objects_at m m.runtime_objects)

    unfoldable pub apply_stage : List RuntimeObject → Exec Session (Unit {0})
    unfolding error_and_status apply_objects
    apply_stage objects = stage "failed to apply backstage objects" (apply_objects p s objects)

    unfoldable pub clean_stage : Backstage → Exec Session (Unit {0})
    unfolding error_and_status clean_objects
    clean_stage b = stage "failed to clean backstage objects " (clean_objects s r.is_openshift b)

    -- From preprocessSpec to the end.
    unfoldable pub run_stages : Backstage → Exec Session (Unit {0})
    unfolding preprocess_stage init_stage read_stage apply_stage clean_stage
    run_stages b = do
      external ← preprocess_stage b
      m ← init_stage b external
      objects ← read_stage m
      apply_stage objects
      clean_stage b
      mark_deployed

    -- The deferred update of the status: it runs on every way out, and its own error is only logged.
    abbrev pub deferred : Outcome (Unit {0}) × Session → Outcome (Unit {0}) × History
    deferred (o, (b, h)) = (o, (send_write s (update_status b) h).1)

    unfoldable pub reconcile_found : Backstage → Exec History (Unit {0})
    unfolding run_stages begin send_write
    reconcile_found b h = deferred (run_stages (begin b) (begin b, h))

    abbrev pub after_get_backstage : Reply Backstage → Exec History (Unit {0})
    after_get_backstage (answered b) = reconcile_found b
    after_get_backstage (failed e) =
        if has_reason not_found e
        then pure tt
        else raise (wrap "failed to load backstage deployment from the cluster: " e)

    unfoldable pub reconcile : NamespacedName → Exec History (Unit {0})
    unfolding reconcile_found send_get_backstage has_reason
    reconcile req =
        if non_empty r.namespace && not (req.namespace == r.namespace)
        then pure tt
        else (send_get_backstage s req >>= after_get_backstage)
