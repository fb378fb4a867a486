-- ===== src/Controller/Reconcile/Bounds.antt =====
-- How many requests a reconciliation sends at most.
use janus_idp_operator.Prelude.{
  ℕ, ◌+◌, ◌*◌, ◌≤◌, String, Bool, List, [], ◌∷◌, ◌≡◌, arith, ap, suc, List-cases, inl, inr, refl,
}
use janus_idp_operator.Prelude.Counting.{length, length-append}
use janus_idp_operator.GoError.{Outcome, ok, err, panic, OnOk, Safe, ◌>>=◌ as and_then}
use janus_idp_operator.GoError.Safety.{Safe-map}
use janus_idp_operator.Api.{Backstage}
use janus_idp_operator.Platform.{Platform}
use janus_idp_operator.Model.Objects.{RuntimeObject}
use janus_idp_operator.Model.State.{ExternalConfig, Ref, BackstageModel, load}
use janus_idp_operator.Model.Runtime.{init_objects}
use janus_idp_operator.Model.Soundness.Slices.{length-IsSound}
use janus_idp_operator.Model.Soundness.Validation.{IsFinished}
use janus_idp_operator.Model.Soundness.Whole.{IsConfigured, raw_of, init_objects-Safe}
use janus_idp_operator.Controller.Exec.{Exec, lift, ◌>>=◌, ◌>>◌}
use janus_idp_operator.Controller.Exec.Costs.{
  Costs, Costs-lift, Costs-more, Costs-bind, Costs-after, continue-spends,
}
use janus_idp_operator.Controller.Requests.{Server, History, update_status}
use janus_idp_operator.Controller.Requests.Sends.{Sent}
use janus_idp_operator.Controller.Requests.Bounds.{sent, send_write-Costs}
use janus_idp_operator.Controller.Preprocess.{preprocess_spec}
use janus_idp_operator.Controller.Preprocess.Bounds.{named_config_maps, preprocess_spec-Costs}
use janus_idp_operator.Controller.Apply.Bounds.{apply_objects-Costs}
use janus_idp_operator.Controller.Clean.{clean_objects}
use janus_idp_operator.Controller.Clean.Deletes.{unwanted, clean_objects-Sent}
use janus_idp_operator.Controller.Reconcile.{
  Reconciler, Session, objects_at, staged, stage, begin, preprocess_stage, init_stage, read_stage,
  apply_stage, clean_stage, mark_deployed, set_status_condition, run_stages, reconcile_found,
}
use janus_idp_operator.Controller.Reconcile.Panics.{Configures}

abbrev sent_in : Session → ℕ
sent_in t = length t.1

-- What is left of it is no shorter.
clean_objects-Costs :
    (s : Server) (is_openshift : Bool) (b : Backstage)
    → Costs sent (length (unwanted is_openshift b)) (clean_objects s is_openshift b)
clean_objects-Costs s is_openshift b = record {
  spends = λ h. within h (clean_objects s is_openshift b h) (clean_objects-Sent s is_openshift b h);
}
  where
    within :
        (h : History) (r : Outcome (Unit {0}) × History)
        → Sent (unwanted is_openshift b) h r
        → length r.1 ≤ length h + length (unwanted is_openshift b)
    within h r d = omega (
      arith,
      length-append h d.sent,
      length-append d.sent d.rest,
      ap length d.split,
      ap length d.history,
    )

-- The runtime objects are as many as their pointers.
objects_at-length :
    (m : BackstageModel) (rs : List Ref) → OnOk (λ os. length os ≡ length rs) (objects_at m rs)
unfolding objects_at
objects_at-length m [] = omega arith
objects_at-length m (r ∷ rs) = with_first (load m r) (objects_at m rs) (objects_at-length m rs)
  where
    with_first :
        (x : Outcome RuntimeObject) (xs : Outcome (List RuntimeObject))
        → OnOk (λ os. length os ≡ length rs) xs
        → OnOk
            (λ os. length os ≡ suc (length rs))
            (and_then x (λ o. and_then xs (λ os. ok (o ∷ os))))
    with_first (ok o) (ok os) e = omega (arith, e)
    with_first (ok o) (err x) e = tt
    with_first (ok o) panic e = tt
    with_first (err x) xs e = tt
    with_first panic xs e = tt

-- The objects of a finished model are at most twelve.
objects_at-short :
    (m : BackstageModel)
    → IsFinished m
    → OnOk (λ os. length os ≤ 12) (objects_at m m.runtime_objects)
objects_at-short m f =
    short (objects_at m m.runtime_objects) (objects_at-length m m.runtime_objects)
  where
    short :
        (x : Outcome (List RuntimeObject))
        → OnOk (λ os. length os ≡ length m.runtime_objects) x
        → OnOk (λ os. length os ≤ 12) x
    short (ok os) e = omega (arith, e, length-IsSound m f.sound)
    short (err x) e = tt
    short panic e = tt

module _ (p : Platform) where
  stage-Costs :
      {A : Type 0} (n : ℕ) (msg : String) (method : Exec History A)
      → Costs sent n method
      → Costs sent_in n (stage p msg method)
  stage-Costs {A = A} n msg method costs = record {
    spends = λ t. omega (arith, costs.spends t.1, as_sent (method t.1).0 t.0 (method t.1).1);
  }
    where
      as_sent :
          (o : Outcome A) (b : Backstage) (h : History)
          → sent_in (staged p msg o (b, h)).1 ≡ length h
      as_sent (ok a) b h = omega arith
      as_sent (err e) b h = omega arith
      as_sent panic b h = omega arith

  -- What holds of the value of a method that makes no request.
  stage-OnOk :
      {A : Type 0} (P : A → Type 0) (msg : String) (o : Outcome A) (t : Session)
      → Safe P o
      → OnOk P (stage p msg (lift o) t).0
  stage-OnOk P msg (ok a) t holds = holds
  stage-OnOk P msg (err e) t holds = tt
  stage-OnOk P msg panic t holds = tt

  module _ (s : Server) (r : Reconciler) where
    -- The requests of a reconciliation of this resource, at most.
    abbrev most : Backstage → ℕ
    most b = named_config_maps b.spec + (24 + length (unwanted r.is_openshift b))

    -- The start changes the status alone.
    most-begin : (b : Backstage) → most (begin p b) ≡ most b
    unfolding begin set_status_condition unwanted
    most-begin b = elim (List-cases b.status.conditions) [
      | inl e ↦ rw e refl
      | inr (c, cs, e) ↦ rw e refl
    ]

    written :
        (b : Backstage) (os : List RuntimeObject)
        → length os ≤ 12
        → Costs sent_in
            (24 + length (unwanted r.is_openshift b))
            (apply_stage p s r os >> (clean_stage p s r b >> mark_deployed p))
    unfolding apply_stage clean_stage
    written b os few =
        let gone = length (unwanted r.is_openshift b) in
        Costs-more (2 * length os + (gone + 0)) (24 + gone) _ (omega arith) (
          Costs-bind (2 * length os) (gone + 0) _ _
            (stage-Costs _ "failed to apply backstage objects" _ (apply_objects-Costs p s os))
            λ _.
              Costs-bind gone 0 _ _
                (stage-Costs _ "failed to clean backstage objects " _
                  (clean_objects-Costs s r.is_openshift b))
                λ _. record { spends = λ t. omega arith })

    -- What follows the first stage.
    made_from :
        (b : Backstage) (external : ExternalConfig)
        → IsConfigured p b.spec (raw_of external)
        → Costs sent_in (24 + length (unwanted r.is_openshift b)) (
            init_stage p s r b external >>= λ m. read_stage p s r m >>= λ os.
            apply_stage p s r os >> (clean_stage p s r b >> mark_deployed p))
    unfolding init_stage read_stage
    made_from b external c =
        let made = init_objects p b external r.owns_runtime r.is_openshift in
        Costs-after IsFinished (24 + length (unwanted r.is_openshift b)) _ _
          (λ t. stage-OnOk IsFinished "failed to initialize backstage model" made t (
            Safe-map _ IsFinished _ (init_objects-Safe p b external r.owns_runtime r.is_openshift c)
              λ m f. f.0))
          (stage-Costs 0 "failed to initialize backstage model" _ (Costs-lift made))
          λ m f.
            Costs-after (λ os. length os ≤ 12) (24 + length (unwanted r.is_openshift b)) _ _
              (λ t. objects_at-short m f) (Costs-lift (objects_at m m.runtime_objects))
              λ os few. written b os few

    preprocessed :
        (b : Backstage) (h : History)
        → Configures p s r b h
        → OnOk
            (λ external. IsConfigured p b.spec (raw_of external))
            (preprocess_stage p s r b (b, h)).0
    unfolding preprocess_stage
    preprocessed b h c = go (preprocess_spec p s b h).0 c
      where
        go :
            (o : Outcome ExternalConfig)
            → OnOk (λ external. IsConfigured p b.spec (raw_of external)) o
            → OnOk
                (λ external. IsConfigured p b.spec (raw_of external))
                (staged p "failed to preprocess backstage spec" o
                  (b, (preprocess_spec p s b h).1)).0
        go (ok external) c = c
        go (err e) c = tt
        go panic c = tt

    run_stages-spends :
        (b : Backstage) (h : History)
        → Configures p s r b h
        → sent_in (run_stages p s r b (b, h)).1 ≤ length h + most b
    unfolding run_stages preprocess_stage
    run_stages-spends b h c =
        let ran = preprocess_stage p s r b (b, h) in
        omega (
          arith,
          (stage-Costs _ "failed to preprocess backstage spec" (preprocess_spec p s b)
                (preprocess_spec-Costs p s b)).spends
              (b, h),
          continue-spends (λ external. IsConfigured p b.spec (raw_of external))
              (24 + length (unwanted r.is_openshift b)) _ (made_from b) ran.0 ran.1
              (preprocessed b h c),
        )

    -- A reconciliation of a resource that was read sends at most one read for each ConfigMap that
    -- the spec names, two requests for each of at most twelve objects, the deletes of what is
    -- unwanted, and the update of the status, whatever the API server answers. The configuration
    -- that preprocessSpec reads, if it reads one, has to be complete.
    pub reconcile_found-Bounded :
        (b : Backstage) (h : History)
        → Configures p s r (begin p b) h
        → length (reconcile_found p s r b h).1
          ≤ length h
            + (named_config_maps b.spec + (2 * 12 + length (unwanted r.is_openshift b)) + 1)
    unfolding reconcile_found
    reconcile_found-Bounded b h c =
        let start = begin p b in
        let ran = run_stages p s r start (start, h) in
        omega (
          arith,
          run_stages-spends start h c,
          (send_write-Costs s (update_status ran.1.0)).spends ran.1.1,
          most-begin b,
        )
