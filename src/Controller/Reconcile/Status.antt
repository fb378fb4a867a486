-- ===== src/Controller/Reconcile/Status.antt =====
-- What a reconciliation reports in the status of its resource.
use text.Mathlib.TextLemmas.{append_assoc}
use janus_idp_operator.Prelude.{
  String, Option, none, some, List, [], ◌∷◌, ◌++◌, ◌==◌, ◌≡◌, refl, if◌then◌else◌,
}
use janus_idp_operator.GoError.{GoError, error_text, Outcome, ok, err, panic, ◌>>=◌ as and_then}
use janus_idp_operator.Api.{
  Backstage, Condition, condition_type_deployed, condition_reason_deployed, condition_reason_failed,
}
use janus_idp_operator.Platform.{Platform}
use janus_idp_operator.Model.Objects.{RuntimeObject}
use janus_idp_operator.Model.State.{Ref, BackstageModel}
use janus_idp_operator.Model.Runtime.{init_objects}
use janus_idp_operator.Controller.Exec.{Exec, lift, continue, ◌>>=◌}
use janus_idp_operator.Controller.Requests.{Server, History, update_status, send_write}
use janus_idp_operator.Controller.Preprocess.{preprocess_spec}
use janus_idp_operator.Controller.Apply.{apply_objects}
use janus_idp_operator.Controller.Clean.{clean_objects}
use janus_idp_operator.Controller.Reconcile.{
  Reconciler, Session, objects_at, set_status_condition, error_and_status, staged, stage, begin,
  preprocess_stage, init_stage, read_stage, apply_stage, clean_stage, run_stages, deferred,
  reconcile_found,
}

-- The first condition of a type.
unfoldable pub find_condition : String → List Condition → Option Condition
find_condition t [] = none
find_condition t (c ∷ cs) =
    let rest = find_condition t cs in if c.cond_type == t then some c else rest

-- meta.SetStatusCondition leaves the condition that it is given as the one of its type.
abbrev pub SetsCondition : Platform → Type 0
SetsCondition p =
    (cs : List Condition) (c : Condition)
    → find_condition c.cond_type (p.set_condition cs c) ≡ some c

abbrev pub deployed_condition : (status reason msg : String) → Condition
deployed_condition status reason msg = record {
  cond_type = condition_type_deployed;
  status = status;
  reason = reason;
  message = msg;
}

-- The condition that a resource has to carry when Reconcile ends so: Deployed is True after a
-- success; after an error it is False, and its message is the error's text. A panic keeps the
-- condition as it was.
abbrev pub Reports : Outcome (Unit {0}) → Backstage → Type 0
Reports (ok a) b =
    find_condition condition_type_deployed b.status.conditions
    ≡ some (deployed_condition "True" condition_reason_deployed "")
Reports (err e) b =
    find_condition condition_type_deployed b.status.conditions
    ≡ some (deployed_condition "False" condition_reason_failed (error_text e))
Reports panic b = Unit

-- The same of a stage of Reconcile, whose success leaves the report to the stages after it.
abbrev ReportsFailure : {A : Type 0} → Outcome A → Backstage → Type 0
ReportsFailure (ok a) b = Unit
ReportsFailure (err e) b =
    find_condition condition_type_deployed b.status.conditions
    ≡ some (deployed_condition "False" condition_reason_failed (error_text e))
ReportsFailure panic b = Unit

-- fmt.Sprintf("%s %s", msg, err) and fmt.Errorf("%s %w", msg, err) are one text.
text-error_and_status :
    (p : Platform) (b : Backstage) (msg : String) (e : GoError)
    → SetsCondition p
    → ReportsFailure {A = Unit {0}}
        (err (error_and_status p b msg e).1)
        (error_and_status p b msg e).0
unfolding error_and_status set_status_condition error_text
text-error_and_status p b msg e sets = rw append_assoc (sets b.status.conditions _)

module _ (p : Platform) (sets : SetsCondition p) where
  staged-ReportsFailure :
      {A : Type 0} (msg : String) (o : Outcome A) (b : Backstage) (h : History)
      → ReportsFailure (staged p msg o (b, h)).0 (staged p msg o (b, h)).1.0
  staged-ReportsFailure msg (ok a) b h = tt
  staged-ReportsFailure msg (err e) b h = text-error_and_status p b msg e sets
  staged-ReportsFailure msg panic b h = tt

  stage-ReportsFailure :
      {A : Type 0} (msg : String) (m : Exec History A) (t : Session)
      → ReportsFailure (stage p msg m t).0 (stage p msg m t).1.0
  stage-ReportsFailure msg m t = staged-ReportsFailure msg (m t.1).0 t.0 (m t.1).1

  objects_at-ReportsFailure :
      (m : BackstageModel) (rs : List Ref) (b : Backstage) → ReportsFailure (objects_at m rs) b
  unfolding objects_at
  objects_at-ReportsFailure m [] b = tt
  objects_at-ReportsFailure m (r ∷ rs) b =
      loaded (m.heap r) (objects_at m rs) (objects_at-ReportsFailure m rs b)
    where
      loaded :
          (o : Option RuntimeObject) (os : Outcome (List RuntimeObject))
          → ReportsFailure os b
          → ReportsFailure
              (and_then
                (elim o as (λ x. Outcome RuntimeObject) [ none ↦ panic | some x ↦ ok x ])
                (λ x. and_then os (λ xs. ok (x ∷ xs))))
              b
      loaded none os h = tt
      loaded (some x) (ok xs) h = tt
      loaded (some x) (err e) h = h
      loaded (some x) panic h = tt

  -- A stage that fails has reported; after its success the rest reports.
  continue-Reports :
      {A : Type 0} (o : Outcome A) (f : A → Exec Session (Unit {0})) (t : Session)
      → ReportsFailure o t.0
      → ((a : A) (u : Session) → Reports (f a u).0 (f a u).1.0)
      → Reports (continue o f t).0 (continue o f t).1.0
  continue-Reports (ok a) f t h k = k a t
  continue-Reports (err e) f t h k = h
  continue-Reports panic f t h k = tt

  bind-Reports :
      {A : Type 0} (m : Exec Session A) (f : A → Exec Session (Unit {0})) (t : Session)
      → ReportsFailure (m t).0 (m t).1.0
      → ((a : A) (u : Session) → Reports (f a u).0 (f a u).1.0)
      → Reports ((m >>= f) t).0 ((m >>= f) t).1.0
  bind-Reports m f t h k = continue-Reports (m t).0 f (m t).1 h k

  module _ (s : Server) (r : Reconciler) where
    run_stages-Reports :
        (b : Backstage) (t : Session) → Reports (run_stages p s r b t).0 (run_stages p s r b t).1.0
    unfolding run_stages preprocess_stage init_stage read_stage apply_stage clean_stage
        set_status_condition
    run_stages-Reports b t =
        bind-Reports (preprocess_stage p s r b) _ t
          (stage-ReportsFailure "failed to preprocess backstage spec" (preprocess_spec p s b) t)
          λ external t₁.
            bind-Reports (init_stage p s r b external) _ t₁
              (stage-ReportsFailure "failed to initialize backstage model"
                (lift (init_objects p b external r.owns_runtime r.is_openshift)) t₁)
              λ m t₂.
                bind-Reports (read_stage p s r m) _ t₂ (objects_at-ReportsFailure m _ t₂.0)
                  λ objects t₃.
                    bind-Reports (apply_stage p s r objects) _ t₃
                      (stage-ReportsFailure "failed to apply backstage objects"
                        (apply_objects p s objects) t₃)
                      λ _ t₄.
                        bind-Reports (clean_stage p s r b) _ t₄
                          (stage-ReportsFailure "failed to clean backstage objects "
                            (clean_objects s r.is_openshift b) t₄)
                          λ _ t₅.
                            sets t₅.0.status.conditions
                              (deployed_condition "True" condition_reason_deployed "")

    reconcile_found-Reports :
        (b : Backstage) (t : Outcome (Unit {0}) × Session) (h : History)
        → Reports t.0 t.1.0
        → (b' : Backstage) × (before : History) × ((deferred p s r t).1
            ≡ before ++ update_status b' ∷ [])
          × Reports (deferred p s r t).0 b'
    unfolding send_write
    reconcile_found-Reports b (o, (b', h')) h k = (b', h', refl, k)

-- Once the resource has been read, the last request of Reconcile is an update of its status, on
-- every way out; and if Reconcile returned, the status carries the condition Deployed, True after a
-- success, and False with the reason DeployFailed and the text of the error after an error. It rests
-- on SetStatusCondition doing what it says.
pub reconcile-Reports :
    (p : Platform) (s : Server) (r : Reconciler) (b : Backstage) (h : History)
    → SetsCondition p
    → (b' : Backstage) × (before : History) × ((reconcile_found p s r b h).1
        ≡ before ++ update_status b' ∷ [])
      × Reports (reconcile_found p s r b h).0 b'
unfolding reconcile_found
reconcile-Reports p s r b h sets =
    reconcile_found-Reports p sets s r b (run_stages p s r (begin p b) (begin p b, h)) h
      (run_stages-Reports p sets s r (begin p b) (begin p b, h))
