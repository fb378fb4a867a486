-- ===== src/Controller/Reconcile/Achieves.antt =====
-- What a reconciliation has done when it returns no error.
use janus_idp_operator.Model.Soundness.{is_db_object}
use janus_idp_operator.Prelude.{
  false, String, some, is_some, true, subst, List, [], ◌∷◌, ◌++◌, ◌≡◌, refl, ◌∙◌, ap, All,
}
use janus_idp_operator.GoError.{OnOk, Outcome, ok, err, panic, Safe}
use janus_idp_operator.Api.{
  is_local_db_enabled, Backstage, condition_type_deployed, condition_reason_deployed,
}
use janus_idp_operator.Platform.{Platform}
use janus_idp_operator.Model.Objects.{RuntimeObject, object}
use janus_idp_operator.Model.State.{ExternalConfig, BackstageModel}
use janus_idp_operator.Model.Runtime.{init_objects}
use janus_idp_operator.Model.Soundness.Validation.{IsFinished}
use janus_idp_operator.Model.Soundness.Whole.{IsConfigured, raw_of, init_objects-Safe}
use janus_idp_operator.Controller.Exec.{Exec, lift, continue, ◌>>=◌}
use janus_idp_operator.Controller.Requests.{Server, History, update_status, send_write}
use janus_idp_operator.Controller.Requests.Sends.{Sent, history-Sent}
use janus_idp_operator.Controller.Preprocess.{preprocess_spec}
use janus_idp_operator.Controller.Apply.{apply_objects}
use janus_idp_operator.Controller.Apply.Written.{Leaves}
use janus_idp_operator.Controller.Apply.Whole.{AreApplied, apply_objects-Leaves}
use janus_idp_operator.Controller.Clean.{clean_objects}
use janus_idp_operator.Controller.Clean.Deletes.{unwanted, clean_objects-Sent}
use janus_idp_operator.Controller.Reconcile.{
  Reconciler, Session, objects_at, set_status_condition, staged, stage, begin, preprocess_stage,
  init_stage, read_stage, apply_stage, clean_stage, run_stages, reconcile_found,
}
use janus_idp_operator.Controller.Reconcile.Status.{
  SetsCondition, find_condition, deployed_condition,
}
use janus_idp_operator.Controller.Reconcile.Panics.{objects_at-Safe, Configures}
use janus_idp_operator.Controller.Reconcile.Slices.{objects_at-plain}

-- `Q` holds at the end, if there was no error.
abbrev OnSuccess : {S : Type 0} → (S → Type 0) → Outcome (Unit {0}) × S → Type 0
OnSuccess Q (ok a, t) = Q t
OnSuccess Q (err e, t) = Unit
OnSuccess Q (panic, t) = Unit

module _ (p : Platform) where
  -- Reconcile goes on after a stage if its call has returned a value.
  stage-then :
      {A : Type 0} (Q : Session → Type 0) (msg : String) (method : Exec History A)
      (next : A → Exec Session (Unit {0})) (b : Backstage) (h : History)
      → ((a : A) → (h' : History) → method h ≡ (ok a, h') → OnSuccess Q (next a (b, h')))
      → OnSuccess Q ((stage p msg method >>= next) (b, h))
  stage-then {A = A} Q msg method next b h k = go (method h).0 (method h).1 k
    where
      go :
          (o : Outcome A) (h₁ : History)
          → ((a : A)
              → (h' : History) → ◌≡◌ {A = Outcome A × History} (o, h₁) (ok a, h')
              → OnSuccess Q (next a (b, h')))
          → OnSuccess Q (continue (staged p msg o (b, h₁)).0 next (staged p msg o (b, h₁)).1)
      go (ok a) h₁ k = k a h₁ refl
      go (err e) h₁ k = tt
      go panic h₁ k = tt

  lift-then :
      {A : Type 0} (Q : Session → Type 0) (o : Outcome A) (next : A → Exec Session (Unit {0}))
      (t : Session)
      → ((a : A) → o ≡ ok a → OnSuccess Q (next a t))
      → OnSuccess Q ((lift o >>= next) t)
  lift-then Q (ok a) next t k = k a refl
  lift-then Q (err e) next t k = tt
  lift-then Q panic next t k = tt

  module _ (s : Server) (r : Reconciler) where
    -- For the resource `b`, from the requests `start` on, Reconcile did its work: the model was made
    -- from the external configuration that was read, each of its objects was applied, none of them
    -- the database's where that is disabled, what is unwanted was deleted, and the condition Deployed
    -- is True.
    pub record IsAchieved (b : Backstage) (start : History) (t : Session) : Type 0 where
      pub external : ExternalConfig
      pub model : BackstageModel
      pub objects : List RuntimeObject
      pub read : History
      pub written : History
      pub preprocessed : preprocess_spec p s b start ≡ (ok external, read)
      pub initialized : init_objects p b external r.owns_runtime r.is_openshift ≡ ok model
      pub finished : IsFinished model
      pub loaded : objects_at model model.runtime_objects ≡ ok objects
      pub without_db :
          is_local_db_enabled b.spec ≡ false → All (λ o. is_db_object o ≡ false) objects
      pub applied : AreApplied p s objects read written
      pub deleted : t.1 ≡ written ++ unwanted r.is_openshift b
      pub reported :
          find_condition condition_type_deployed t.0.status.conditions
          ≡ some (deployed_condition "True" condition_reason_deployed "")

    achieved :
        (b : Backstage) (h : History) (external : ExternalConfig) (m : BackstageModel)
        (os : List RuntimeObject) (read read' written last : History)
        → SetsCondition p
        → IsConfigured p b.spec (raw_of external)
        → preprocess_spec p s b h ≡ (ok external, read)
        → lift (init_objects p b external r.owns_runtime r.is_openshift) read ≡ (ok m, read')
        → objects_at m m.runtime_objects ≡ ok os
        → apply_objects p s os read' ≡ (ok tt, written)
        → clean_objects s r.is_openshift b written ≡ (ok tt, last)
        → IsAchieved b h (
          set_status_condition p b condition_type_deployed "True" condition_reason_deployed "",
          last,
        )
    unfolding set_status_condition
    achieved b h external m os read read' written last sets c e₁ e₂ e₃ e₄ e₅ = record {
      external = external;
      model = m;
      objects = os;
      read = read;
      written = written;
      preprocessed = e₁;
      initialized = ap (λ x. x.0) e₂;
      finished = finished;
      loaded = e₃;
      without_db = λ off.
          subst (OnOk (All (λ o. is_db_object o ≡ false))) e₃
            (objects_at-plain m m.runtime_objects (finished.sound.plain (local_db ∙ off)));
      applied =
          subst (Leaves p s (AreApplied p s os read))
            (ap (λ t. apply_objects p s os t) (ap (λ x. x.1) e₂) ∙ e₄)
            (apply_objects-Leaves p s os read live);
      deleted = history-Sent (unwanted r.is_openshift b) written last (
          subst (Sent (unwanted r.is_openshift b) written) e₅
            (clean_objects-Sent s r.is_openshift b written));
      reported = sets b.status.conditions (deployed_condition "True" condition_reason_deployed "");
    }
      where
        made : IsFinished m × (m.local_db_enabled ≡ is_local_db_enabled b.spec)
        made =
            subst (Safe (λ m. IsFinished m × (m.local_db_enabled ≡ is_local_db_enabled b.spec)))
              (ap (λ x. x.0) e₂) (init_objects-Safe p b external r.owns_runtime r.is_openshift c)

        finished : IsFinished m
        finished = made.0

        local_db : m.local_db_enabled ≡ is_local_db_enabled b.spec
        local_db = made.1

        live : All (λ o. is_some (object o) ≡ true) os
        live = subst (Safe _) e₃ (objects_at-Safe m m.runtime_objects finished.sound.objects)

    run_stages-Achieves :
        (b : Backstage) (h : History)
        → SetsCondition p
        → Configures p s r b h
        → OnSuccess (IsAchieved b h) (run_stages p s r b (b, h))
    unfolding run_stages preprocess_stage init_stage read_stage apply_stage clean_stage
    run_stages-Achieves b h sets c =
        stage-then _ "failed to preprocess backstage spec" (preprocess_spec p s b) _ b h
          λ external read e₁.
            stage-then _ "failed to initialize backstage model"
              (lift (init_objects p b external r.owns_runtime r.is_openshift)) _ b read
              λ m read' e₂.
                lift-then _ (objects_at m m.runtime_objects) _ (b, read')
                  λ os e₃.
                    stage-then _ "failed to apply backstage objects" (apply_objects p s os) _ b
                      read'
                      λ _ written e₄.
                        stage-then _ "failed to clean backstage objects "
                          (clean_objects s r.is_openshift b) _ b written
                          λ _ last e₅.
                            achieved b h external m os read read' written last sets
                              (subst
                                (λ (x : Outcome ExternalConfig × History).
                                  OnOk (λ external. IsConfigured p b.spec (raw_of external)) x.0)
                                e₁ c)
                              e₁ e₂ e₃ e₄ e₅

    -- If Reconcile returns no error for the resource that it has read, then it has read the external
    -- configuration of the spec, made a finished model from it, applied each object of the model,
    -- none of them the database's where that is disabled, sent the deletes of what is unwanted, and
    -- last updated the status, where the condition Deployed is True. The
    -- configuration that was read has to be complete.
    pub reconcile_found-Achieves :
        (b : Backstage) (h : History)
        → SetsCondition p
        → Configures p s r (begin p b) h
        → (reconcile_found p s r b h).0 ≡ ok tt
        → (t : Session) × IsAchieved (begin p b) h t
          × ((reconcile_found p s r b h).1 ≡ t.1 ++ update_status t.0 ∷ [])
    unfolding reconcile_found send_write
    reconcile_found-Achieves b h sets c e =
        go (run_stages p s r (begin p b) (begin p b, h)).0
          (run_stages p s r (begin p b) (begin p b, h)).1 e
          (run_stages-Achieves (begin p b) h sets c)
      where
        go :
            (o : Outcome (Unit {0})) (t : Session)
            → o ≡ ok tt
            → OnSuccess (IsAchieved (begin p b) h) (o, t)
            → (t' : Session) × IsAchieved (begin p b) h t'
              × (t.1 ++ update_status t.0 ∷ [] ≡ t'.1 ++ update_status t'.0 ∷ [])
        go (ok a) t e q = (t, q, refl)
        go (err x) t e q = cc e
        go panic t e q = cc e
