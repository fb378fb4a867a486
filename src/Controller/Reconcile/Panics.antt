-- ===== src/Controller/Reconcile/Panics.antt =====
-- Reconcile does not panic.
use janus_idp_operator.Prelude.{
  String, arith, Bool, true, false, not, ◌&&◌, Option, none, some, is_some, List, [], ◌∷◌, ◌==◌,
  ◌++◌, ◌≡◌, refl, non_empty, All, List-cases, inl, inr, if◌then◌else◌,
}
use janus_idp_operator.GoError.{
  Any, GoError, has_reason, not_found, Outcome, ok, err, panic, Safe, OnOk, Reply, answered, failed,
}
use janus_idp_operator.GoError.Safety.{Safe-bind, Safe-map, Safe-both}
use janus_idp_operator.Kube.{Kind}
use janus_idp_operator.Api.{Backstage, is_local_db_enabled, is_route_enabled}
use janus_idp_operator.Platform.{Platform}
use janus_idp_operator.Model.Objects.{RuntimeObject, object}
use janus_idp_operator.Model.State.{Ref, BackstageModel, load}
use janus_idp_operator.Model.Runtime.{init_objects}
use janus_idp_operator.Model.Soundness.{is_sound, is_live}
use janus_idp_operator.Model.Soundness.Cells.{load-live}
use janus_idp_operator.Model.Soundness.Validation.{IsFinished}
use janus_idp_operator.Model.Soundness.Whole.{IsConfigured, raw_of, init_objects-Safe}
use janus_idp_operator.Controller.Exec.{Exec, lift}
use janus_idp_operator.Controller.Exec.Calm.{Calm, Calm-bind, Calm-if, continue-Safe}
use janus_idp_operator.Controller.Requests.{
  Server, History, NamespacedName, get_backstage, send_get_backstage, send_write,
}
use janus_idp_operator.Controller.Preprocess.{preprocess_spec}
use janus_idp_operator.Controller.Preprocess.Panics.{preprocess_spec-Calm}
use janus_idp_operator.Controller.Apply.{apply_objects}
use janus_idp_operator.Controller.Apply.Written.{Leaves}
use janus_idp_operator.Controller.Apply.Whole.{AreApplied, apply_objects-Leaves}
use janus_idp_operator.Controller.Clean.{
  clean_objects, clean_local_db, clean_local_db_unless, try_to_delete, unless_gone,
}
use janus_idp_operator.Controller.Reconcile.{
  Reconciler, objects_at, staged, stage, begin, set_status_condition, preprocess_stage, init_stage,
  read_stage, apply_stage, clean_stage, run_stages, after_get_backstage, reconcile_found, reconcile,
}

module _ (s : Server) where
  unless_gone-Calm : (name : String) (e : Option GoError) → Calm Any (unless_gone s name e)
  unless_gone-Calm name none = λ h. tt
  unless_gone-Calm name (some e) =
      Calm-if Any (not (has_reason not_found e)) _ _ (λ h. tt) (λ h. tt)

  try_to_delete-Calm : (kind : Kind) (name ns : String) → Calm Any (try_to_delete s kind name ns)
  unfolding try_to_delete send_write
  try_to_delete-Calm kind name ns =
      Calm-bind Any Any (send_write s _) (λ e. unless_gone s name e) (λ h. tt)
        λ e _. unless_gone-Calm name e

  clean_objects-Calm :
      (is_openshift : Bool) (b : Backstage) → Calm Any (clean_objects s is_openshift b)
  unfolding clean_objects clean_local_db
  clean_objects-Calm is_openshift b =
      Calm-bind Any Any (clean_local_db_unless s (is_local_db_enabled b.spec) b) _
        (Calm-if Any (not (is_local_db_enabled b.spec)) _ _
          (Calm-bind Any Any (try_to_delete s _ _ _) _ (try_to_delete-Calm _ _ _) λ _ _.
            Calm-bind Any Any (try_to_delete s _ _ _) _ (try_to_delete-Calm _ _ _)
              λ _ _. try_to_delete-Calm _ _ _)
          (λ h. tt))
        λ _ _.
          Calm-if Any (is_openshift && not (is_route_enabled b.spec)) _ _ (try_to_delete-Calm _ _ _)
            (λ h. tt)

-- A sound object has a Kubernetes object.
pub object_sound : (o : RuntimeObject) → is_sound o ≡ true → is_some (object o) ≡ true
unfolding object
object_sound o e = ground (arith, e)

-- The objects that a sound model's slice points to.
pub objects_at-Safe :
    (m : BackstageModel) (rs : List Ref)
    → All (λ r. is_live (m.heap r) ≡ true) rs
    → Safe (λ os. All (λ o. is_some (object o) ≡ true) os) (objects_at m rs)
unfolding objects_at
objects_at-Safe m [] live = tt
objects_at-Safe m (r ∷ rs) (l, live) = Safe-bind _ (load m r) _ (load-live m r l) λ o (e, sound).
    Safe-bind _ (objects_at m rs) _ (objects_at-Safe m rs live)
      λ os lives. (object_sound o sound, lives)

Safe-if-at :
    {A S : Type 0} (P : A → Type 0) (test : Bool) (x y : Exec S A) (h : S)
    → Safe P (x h).0
    → Safe P (y h).0
    → Safe P ((if test then x else y) h).0
Safe-if-at P true x y h of_x of_y = of_x
Safe-if-at P false x y h of_x of_y = of_y

module _ (p : Platform) (s : Server) (r : Reconciler) where
  -- A stage at one state.
  stage-Safe :
      {A : Type 0} (P : A → Type 0) (msg : String) (method : Exec History A) (b : Backstage)
      (h : History)
      → Safe P (method h).0
      → Safe P (stage p msg method (b, h)).0
  stage-Safe {A = A} P msg method b h safe = go (method h).0 safe
    where
      go : (o : Outcome A) → Safe P o → Safe P (staged p msg o (b, (method h).1)).0
      go (ok a) holds = holds
      go (err e) holds = tt
      go panic holds = holds

  stage-Calm :
      {A : Type 0} (P : A → Type 0) (msg : String) (method : Exec History A)
      → Calm P method
      → Calm P (stage p msg method)
  stage-Calm P msg method calm (b, h) = stage-Safe P msg method b h (calm h)

  apply_objects-Calm :
      (os : List RuntimeObject)
      → All (λ o. is_some (object o) ≡ true) os
      → Calm Any (apply_objects p s os)
  apply_objects-Calm os live h =
      go (apply_objects p s os h).0 (apply_objects p s os h).1 (apply_objects-Leaves p s os h live)
    where
      go :
          (o : Outcome (Unit {0})) (now : History)
          → Leaves p s (AreApplied p s os h) (o, now)
          → Safe Any o
      go (ok a) now holds = tt
      go (err e) now holds = tt
      go panic now holds = holds

  -- The external configuration that preprocessSpec reads for the resource, if it reads one, is
  -- complete.
  abbrev pub Configures : Backstage → History → Type 0
  Configures b h =
      OnOk (λ external. IsConfigured p b.spec (raw_of external)) (preprocess_spec p s b h).0

  run_stages-Safe :
      (b : Backstage) (h : History) → Configures b h → Safe Any (run_stages p s r b (b, h)).0
  unfolding run_stages preprocess_stage init_stage read_stage apply_stage clean_stage
  run_stages-Safe b h c =
      continue-Safe (λ external. IsConfigured p b.spec (raw_of external)) Any
        (preprocess_stage p s r b (b, h)).0 _ (preprocess_stage p s r b (b, h)).1
        (stage-Safe _ "failed to preprocess backstage spec" (preprocess_spec p s b) b h (
          Safe-map _ _ (preprocess_spec p s b h).0
            (Safe-both Any _ (preprocess_spec p s b h).0 (preprocess_spec-Calm p s b h) c)
            λ external x. x.1))
        λ external c.
          Calm-bind IsFinished Any (init_stage p s r b external) _
            (stage-Calm IsFinished "failed to initialize backstage model"
              (lift (init_objects p b external r.owns_runtime r.is_openshift))
              λ h.
                Safe-map _ IsFinished _
                  (init_objects-Safe p b external r.owns_runtime r.is_openshift c) λ m f. f.0)
            λ m f.
              Calm-bind (λ os. All (λ o. is_some (object o) ≡ true) os) Any (read_stage p s r m) _
                (λ t. objects_at-Safe m m.runtime_objects f.sound.objects)
                λ os live.
                  Calm-bind Any Any (apply_stage p s r os) _
                    (stage-Calm Any "failed to apply backstage objects" (apply_objects p s os)
                      (apply_objects-Calm os live))
                    λ _ _.
                      Calm-bind Any Any (clean_stage p s r b) _
                        (stage-Calm Any "failed to clean backstage objects "
                          (clean_objects s r.is_openshift b)
                          (clean_objects-Calm s r.is_openshift b))
                        λ _ _ t. tt

  pub begin-spec : (b : Backstage) → (begin p b).spec ≡ b.spec
  unfolding begin set_status_condition
  begin-spec b = elim (List-cases b.status.conditions) [
    | inl e ↦ rw e refl
    | inr (c, cs, e) ↦ rw e refl
  ]

  reconcile_found-Safe :
      (b : Backstage) (h : History)
      → Configures (begin p b) h
      → Safe Any (reconcile_found p s r b h).0
  unfolding reconcile_found
  reconcile_found-Safe b h c = run_stages-Safe (begin p b) h c

  -- On a complete configuration Reconcile does not panic, whatever the API server answers to each of
  -- its requests: it returns with or without an error. The configuration in question is the one that
  -- preprocessSpec reads for the resource, if it reads one.
  pub reconcile-Safe :
      (req : NamespacedName) (h : History)
      → ((b : Backstage)
          → s.on_get_backstage h req ≡ answered b
          → Configures (begin p b) (h ++ get_backstage req ∷ []))
      → Safe Any (reconcile p s r req h).0
  unfolding reconcile send_get_backstage
  reconcile-Safe req h c =
      Safe-if-at Any (non_empty r.namespace && not (req.namespace == r.namespace)) _ _ h tt
        (go (s.on_get_backstage h req) c)
    where
      go :
          (reply : Reply Backstage)
          → ((b : Backstage)
              → reply ≡ answered b
              → Configures (begin p b) (h ++ get_backstage req ∷ []))
          → Safe Any (after_get_backstage p s r reply (h ++ get_backstage req ∷ [])).0
      go (answered b) c = reconcile_found-Safe b (h ++ get_backstage req ∷ []) (c b refl)
      go (failed e) c =
          Calm-if Any (has_reason not_found e) _ _ (λ h. tt) (λ h. tt) (h ++ get_backstage req ∷ [])
