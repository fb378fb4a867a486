-- ===== src/Controller/Reconcile/Deploys.antt =====
-- A reconciliation that succeeds.
use mathlib.Core.Path.{fun_ext}
use janus_idp_operator.Prelude.{
  String, true, false, not, ◌&&◌, is_some, List, [], ◌∷◌, ◌++◌, ◌≡◌, refl, All, subst, sym,
  Option-cases, List-cases, ◌==◌, non_empty, inl, inr,
}
use janus_idp_operator.GoError.{
  Any, Outcome, ok, err, panic, OnOk, Gives, answered, ◌>>=◌ as and_then,
}
use janus_idp_operator.Model.Soundness.{is_sound, is_live}
use janus_idp_operator.Model.Soundness.Cells.{load-some}
use janus_idp_operator.Kube.{ConfigMap}
use janus_idp_operator.Api.{Backstage, BackstageSpec, is_local_db_enabled}
use janus_idp_operator.Platform.{Platform, VisitsAll}
use janus_idp_operator.Model.Objects.{RuntimeObject, object}
use janus_idp_operator.Model.State.{ExternalConfig, Ref, BackstageModel}
use janus_idp_operator.Model.Runtime.{init_objects}
use janus_idp_operator.Model.Soundness.Validation.{IsFinished}
use janus_idp_operator.Model.Soundness.Whole.{IsConfigured, raw_of}
use janus_idp_operator.Model.Returns.Provided.{IsProvided}
use janus_idp_operator.Model.Returns.Whole.{init_objects-Gives}
use janus_idp_operator.Controller.Exec.{Exec, lift, continue, ◌>>=◌}
use janus_idp_operator.Controller.Exec.Returns.{Gives-continue, Gives-map}
use janus_idp_operator.Controller.Requests.{
  Server, History, NamespacedName, update_status, get_backstage, send_get_backstage,
}
use janus_idp_operator.Controller.Preprocess.{preprocess_spec}
use janus_idp_operator.Controller.Preprocess.Wanted.{SpecThere, IsWanted, merged}
use janus_idp_operator.Controller.Preprocess.Answered.{preprocess_spec-Gives}
use janus_idp_operator.Controller.Apply.{apply_objects}
use janus_idp_operator.Controller.Apply.Accepted.{Accepts, apply_objects-ok}
use janus_idp_operator.Controller.Clean.{clean_objects}
use janus_idp_operator.Controller.Reconcile.{
  Reconciler, Session, objects_at, set_status_condition, staged, stage, begin, preprocess_stage,
  init_stage, read_stage, apply_stage, clean_stage, run_stages, reconcile_found, reconcile,
}
use janus_idp_operator.Controller.Reconcile.Status.{SetsCondition}
use janus_idp_operator.Controller.Reconcile.Achieves.{IsAchieved, reconcile_found-Achieves}
use janus_idp_operator.Controller.Reconcile.Panics.{object_sound, begin-spec, Configures}
use janus_idp_operator.Controller.Clean.Accepted.{clean_objects-ok}

-- The objects of a model whose slice is sound.
objects_at-Gives :
    (m : BackstageModel) (rs : List Ref)
    → All (λ r. is_live (m.heap r) ≡ true) rs
    → Gives (λ os. All (λ o. is_some (object o) ≡ true) os) (objects_at m rs)
unfolding objects_at
objects_at-Gives m [] live = tt
objects_at-Gives m (r ∷ rs) (l, live) =
    let rest = objects_at-Gives m rs live in
    elim (Option-cases (m.heap r)) [
      | inl n ↦ cc (l, n)
      | inr (o, n) ↦ rw (load-some m r o n) (with_first o (objects_at m rs) (cc (l, n)) rest)
    ]
  where
    with_first :
        (o : RuntimeObject) (x : Outcome (List RuntimeObject))
        → is_sound o ≡ true
        → Gives (λ os. All (λ o. is_some (object o) ≡ true) os) x
        → Gives (λ os. All (λ o. is_some (object o) ≡ true) os) (and_then x (λ os. ok (o ∷ os)))
    with_first o (ok os) e lives = (object_sound o e, lives)
    with_first o (err x) e lives = lives
    with_first o panic e lives = lives

module _ (p : Platform) where
  begin-meta : (b : Backstage) → (begin p b).meta ≡ b.meta
  unfolding begin set_status_condition
  begin-meta b = elim (List-cases b.status.conditions) [
    | inl e ↦ rw e refl
    | inr (c, cs, e) ↦ rw e refl
  ]

  stage-ok :
      {A : Type 0} (P : A → Type 0) (msg : String) (method : Exec History A)
      (next : A → Exec Session (Unit {0})) (b : Backstage) (h : History)
      → Gives P (method h).0
      → ((a : A) → (method h).0 ≡ ok a → P a → Gives Any (next a (b, (method h).1)).0)
      → Gives Any ((stage p msg method >>= next) (b, h)).0
  stage-ok {A = A} P msg method next b h holds k = go (method h).0 (method h).1 holds k
    where
      go :
          (o : Outcome A) (h' : History)
          → Gives P o
          → ((a : A) → o ≡ ok a → P a → Gives Any (next a (b, h')).0)
          → Gives Any (continue (staged p msg o (b, h')).0 next (staged p msg o (b, h')).1).0
      go (ok a) h' holds k = k a refl holds
      go (err e) h' holds k = holds
      go panic h' holds k = holds

  module _ (s : Server) (r : Reconciler) where
    -- The configuration is complete, with the raw configuration that the spec names.
    abbrev pub Completes : (String → ConfigMap) → BackstageSpec → Type 0
    Completes contents spec = IsConfigured p spec (merged contents spec.raw_runtime_config)

    -- The raw configuration that preprocessSpec reads is the one that the spec names.
    raw_same :
        (contents : String → ConfigMap) (spec : BackstageSpec) (external : ExternalConfig)
        → IsWanted contents spec external
        → merged contents spec.raw_runtime_config ≡ raw_of external
    raw_same contents spec external wanted = fun_ext λ key. sym (wanted.raw key)

    there_at_begin :
        (contents : String → ConfigMap) (b : Backstage)
        → SpecThere contents s b.meta.namespace b.spec
        → SpecThere contents s (begin p b).meta.namespace (begin p b).spec
    there_at_begin contents b there =
        subst (λ m. SpecThere contents s m.namespace (begin p b).spec) (sym (begin-meta b))
          (subst (SpecThere contents s b.meta.namespace) (sym (begin-spec p s r b)) there)

    -- What preprocessSpec reads is complete if the configuration in the cluster is.
    pub Configures-begin :
        (contents : String → ConfigMap) (b : Backstage) (h : History)
        → VisitsAll p
        → SpecThere contents s b.meta.namespace b.spec
        → Completes contents b.spec
        → Configures p s r (begin p b) h
    Configures-begin contents b h visits there c =
        configured (preprocess_spec p s (begin p b) h).0 (
          preprocess_spec-Gives p s contents (begin p b) h visits (there_at_begin contents b there))
      where
        spec : BackstageSpec
        spec = (begin p b).spec

        configured :
            (o : Outcome ExternalConfig)
            → Gives (IsWanted contents spec) o
            → OnOk (λ external. IsConfigured p spec (raw_of external)) o
        configured (ok external) wanted =
            subst (IsConfigured p spec) (raw_same contents spec external wanted)
              (subst (Completes contents) (sym (begin-spec p s r b)) c)
        configured (err e) wanted = tt
        configured panic wanted = tt

  module _ (s : Server) (r : Reconciler) (accepts : Accepts s) where
    -- The configuration has what InitObjects asks for, with the raw configuration that the spec names.
    abbrev pub Provides : (String → ConfigMap) → BackstageSpec → Type 0
    Provides contents spec = IsProvided p spec (merged contents spec.raw_runtime_config)

    init_objects-made :
        (contents : String → ConfigMap) (b : Backstage) (external : ExternalConfig)
        → Completes s r contents b.spec
        → Provides contents b.spec
        → IsWanted contents b.spec external
        → Gives IsFinished (init_objects p b external r.owns_runtime r.is_openshift)
    init_objects-made contents b external c provides wanted =
        Gives-map (λ m. IsFinished m × (m.local_db_enabled ≡ is_local_db_enabled b.spec)) IsFinished
          (init_objects p b external r.owns_runtime r.is_openshift)
          (init_objects-Gives p b external r.owns_runtime r.is_openshift
            (subst (IsConfigured p b.spec) (raw_same s r contents b.spec external wanted) c)
            (subst (IsProvided p b.spec) (raw_same s r contents b.spec external wanted) provides))
          λ m f. f.0

    run_stages-ok :
        (contents : String → ConfigMap) (b : Backstage) (h : History)
        → VisitsAll p
        → SpecThere contents s b.meta.namespace b.spec
        → Completes s r contents b.spec
        → Provides contents b.spec
        → Gives Any (run_stages p s r b (b, h)).0
    unfolding run_stages preprocess_stage init_stage read_stage apply_stage clean_stage
    run_stages-ok contents b h visits there c provides =
        stage-ok _ "failed to preprocess backstage spec" (preprocess_spec p s b) _ b h
          (preprocess_spec-Gives p s contents b h visits there)
          λ external _ wanted.
            stage-ok IsFinished "failed to initialize backstage model"
              (lift (init_objects p b external r.owns_runtime r.is_openshift)) _ b _
              (init_objects-made contents b external c provides wanted)
              λ m _ f.
                Gives-continue Any (objects_at m m.runtime_objects) _ _
                  (objects_at-Gives m m.runtime_objects f.sound.objects)
                  λ os live.
                    stage-ok Any "failed to apply backstage objects" (apply_objects p s os) _ b _
                      (apply_objects-ok p s accepts os _ live)
                      λ _ _ _.
                        stage-ok Any "failed to clean backstage objects "
                          (clean_objects s r.is_openshift b) _ b _
                          (clean_objects-ok s accepts r.is_openshift b _) λ _ _ _. tt

    pub reconcile_found-ok :
        (contents : String → ConfigMap) (b : Backstage) (h : History)
        → VisitsAll p
        → SpecThere contents s b.meta.namespace b.spec
        → Completes s r contents b.spec
        → Provides contents b.spec
        → (reconcile_found p s r b h).0 ≡ ok tt
    unfolding reconcile_found
    reconcile_found-ok contents b h visits there c provides =
        returned (run_stages p s r (begin p b) (begin p b, h)).0 (
          run_stages-ok contents (begin p b) h visits (there_at_begin s r contents b there)
            (subst (Completes s r contents) (sym (begin-spec p s r b)) c)
            (subst (Provides contents) (sym (begin-spec p s r b)) provides))
      where
        returned : (o : Outcome (Unit {0})) → Gives Any o → o ≡ ok tt
        returned (ok a) g = refl
        returned (err e) g = absurd g
        returned panic g = absurd g

    -- Reconcile deploys the resource that it reads: it returns no error, and has done its work. This
    -- holds if the resource is not foreign, every ConfigMap that its spec names is in the cluster,
    -- the configuration is complete and has what InitObjects asks for, and the API server accepts
    -- every write and fails no read but of what is not there.
    pub reconcile-Deploys :
        (req : NamespacedName) (contents : String → ConfigMap) (b : Backstage) (h : History)
        → (non_empty r.namespace && not (req.namespace == r.namespace)) ≡ false
        → s.on_get_backstage h req ≡ answered b
        → VisitsAll p
        → SetsCondition p
        → SpecThere contents s b.meta.namespace b.spec
        → Completes s r contents b.spec
        → Provides contents b.spec
        → (t : Session) × IsAchieved p s r (begin p b) (h ++ get_backstage req ∷ []) t
          × (reconcile p s r req h ≡ (ok tt, t.1 ++ update_status t.0 ∷ []))
    unfolding reconcile send_get_backstage
    reconcile-Deploys req contents b h own found visits sets there c provides =
        let start = h ++ get_backstage req ∷ [] in
        let done = reconcile_found-ok contents b start visits there c provides in
        let (t, achieved, history) =
          reconcile_found-Achieves p s r b start sets
            (Configures-begin s r contents b start visits there c) done in
        (t, achieved, rw (own, found) (cc (done, history)))
