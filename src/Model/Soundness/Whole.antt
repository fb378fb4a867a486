-- ===== src/Model/Soundness/Whole.antt =====
-- InitObjects as a whole does not panic, and the model that it returns is sound.
use mathlib.Core.List.{Mem, mem-cons, not-mem-nil, mem-cons_self, mem-cons_of_mem, Perm}
use mathlib.Core.List.Perm
use mathlib.Core.Logic.Or
use mathlib.Core.Bool.{Bool-set}
use janus_idp_operator.Model.State.Classes.{count_class, count_class-perm}
use janus_idp_operator.Prelude.{
  String, Option, ◌&&◌, and_left, and_right, arith, ℕ, Bool, true, List, [], ◌∷◌, ◌≡◌, refl, sym,
  ◌∙◌, subst, All,
}
use janus_idp_operator.GoError.{Safe}
use janus_idp_operator.GoError.Safety.{Safe-bind}
use janus_idp_operator.Api.{Backstage, BackstageSpec, is_local_db_enabled}
use janus_idp_operator.Platform.{Platform}
use janus_idp_operator.Model.Objects.{type_code, object}
use janus_idp_operator.Model.State.{ExternalConfig, Ref, BackstageModel}
use janus_idp_operator.Model.Runtime.{
  init_objects, init_each, validate_each, sort_runtime_objects, less, new_model, runtime_config,
  ObjectConfig,
}
use janus_idp_operator.Model.Soundness.{is_live, is_plain, is_sound_or_nil, IsSound}
use janus_idp_operator.Model.Soundness.Validation.{IsFinished, IsFinished-Follows}
use janus_idp_operator.Model.Soundness.Registration.{IsPartial}
use janus_idp_operator.Model.Soundness.MetaInfo.{OwnsAll}
use janus_idp_operator.StringMap.{lookup}
use janus_idp_operator.Model.Documents.{AreRead}
use janus_idp_operator.Model.Soundness.Owners.{is_unowned}
use janus_idp_operator.Model.Soundness.Loading.{KeepsKind, IsUsable}
use janus_idp_operator.Model.Soundness.Building.{Built, IsLoadable, init_each-Safe}
use janus_idp_operator.Model.Soundness.Phases.{validate_each-Safe}

-- sort.Slice leaves the slice with the same elements, whatever the comparison is.
abbrev pub SortsSlices : Platform → Type 0
SortsSlices p = (lt : ℕ → ℕ → Bool) (rs : List ℕ) → Perm (p.sort_slice lt rs) rs

module _ (f : Ref → Bool) where
  All-of_mem : (rs : List Ref) → ((r : Ref) → Mem r rs → f r ≡ true) → All (λ r. f r ≡ true) rs
  All-of_mem [] h = tt
  All-of_mem (r ∷ rs) h = (h r mem-cons_self, All-of_mem rs λ q m. h q (mem-cons_of_mem r m))

  mem_of_All : (rs : List Ref) → All (λ r. f r ≡ true) rs → (r : Ref) → Mem r rs → f r ≡ true
  mem_of_All [] l r m = absurd (not-mem-nil m)
  mem_of_All (q ∷ qs) (e, l) r m =
      Or.elim (λ x y. Bool-set _ _ x y) (mem-cons.0 m) (λ p. subst (λ x. f x ≡ true) (sym p) e)
        (λ rest. mem_of_All qs l r rest)

  All-perm : (rs qs : List Ref) → Perm rs qs → All (λ r. f r ≡ true) qs → All (λ r. f r ≡ true) rs
  All-perm rs qs same l = All-of_mem rs λ r m. mem_of_All qs l r (Perm.subset same r m)

-- A new model is sound: it has nothing.
new_model-IsSound :
    (b : Backstage) (external : ExternalConfig) (is_openshift : Bool)
    → IsSound (new_model b external is_openshift)
unfolding count_class
new_model-IsSound b external is_openshift = record {
  fresh = λ q le. refl;
  deployment = refl;
  service = refl;
  stateful_set = refl;
  db_service = refl;
  db_secret = refl;
  route = refl;
  objects = tt;
  plain = λ off. tt;
  distinct = λ c. omega arith;
}

-- All classes have been registered, so the model has its deployment, its service and, where the
-- database is enabled, the database's objects.
IsFinished-of_Built : (m m' : BackstageModel) → Built runtime_config m m' → IsFinished m'
unfolding type_code
IsFinished-of_Built m m' b =
    let (
      _,
      (_, (_, (_, (service, (stateful_set, (deployment, (_, (_, (_, (_, (front, _))))))))))),
    ) =
      b.registered in
    record {
      sound = b.follows.sound;
      deployment = deployment.deployment refl;
      service = front.service refl;
      stateful_set = stateful_set.stateful_set refl;
      db_service = service.db_service refl;
    }

sorted-IsFinished :
    (p : Platform) (m : BackstageModel)
    → SortsSlices p
    → IsFinished m
    → IsFinished (sort_runtime_objects p m)
unfolding sort_runtime_objects
sorted-IsFinished p m sorts f = record {
  sound = record {
    fresh = f.sound.fresh;
    deployment = f.sound.deployment;
    service = f.sound.service;
    stateful_set = f.sound.stateful_set;
    db_service = f.sound.db_service;
    db_secret = f.sound.db_secret;
    route = f.sound.route;
    objects =
        All-perm (λ r. is_live (m.heap r)) _ m.runtime_objects (sorts (less m) m.runtime_objects)
          f.sound.objects;
    plain = λ off.
        All-perm (λ r. is_plain (m.heap r)) _ m.runtime_objects (sorts (less m) m.runtime_objects)
          (f.sound.plain off);
    distinct = λ c.
        rw (count_class-perm m.heap c _ m.runtime_objects (sorts (less m) m.runtime_objects))
          (f.sound.distinct c);
  };
  deployment = f.deployment;
  service = f.service;
  stateful_set = f.stateful_set;
  db_service = f.db_service;
}

abbrev factory_is_loadable : ObjectConfig → Bool
factory_is_loadable conf = is_sound_or_nil conf.object_factory && is_unowned conf.object_factory

factories-are_loadable : All (λ conf. factory_is_loadable conf ≡ true) runtime_config
unfolding is_unowned object
factories-are_loadable = (
  refl,
  (refl, (refl, (refl, (refl, (refl, (refl, (refl, (refl, (refl, (refl, (refl, tt))))))))))),
)

-- What InitObjects relies on, with the given raw configuration: the decoder keeps the kind of the
-- object that it fills; each default file that is there and each entry of the raw configuration for
-- a class, as decoded, has the containers, selectors and ports that the code indexes and names no
-- owner; the owner reference can be set on an object without one; sort.Slice permutes; and the
-- spec's route, if any, leaves something out.
pub record IsConfigured (p : Platform) (spec : BackstageSpec) (raw : String → Option String)
    : Type 0 where
  pub keeps_kind : KeepsKind p
  pub documents : All (AreRead IsUsable p raw) runtime_config
  pub owns : OwnsAll p
  pub sorts : SortsSlices p
  pub partial : IsPartial spec

-- The raw configuration of an external one.
abbrev pub raw_of : ExternalConfig → String → Option String
raw_of external key = lookup key external.raw_config

-- On a complete configuration InitObjects does not panic. The model that it returns, if it returns
-- no error, has a deployment and a service, and a stateful set and a service for the database where
-- that is enabled; each pointer of the model leads to an object of its class, and each runtime
-- object has a Kubernetes object, complete if it is a workload; no two of them are of one class; and
-- none is one of the database's where the spec disables that. A configuration is complete if each
-- document that is read for a class is, and names no owner.
pub init_objects-Safe :
    (p : Platform) (b : Backstage) (external : ExternalConfig) (owns is_openshift : Bool)
    → IsConfigured p b.spec (raw_of external)
    → Safe
        (λ m. IsFinished m × (m.local_db_enabled ≡ is_local_db_enabled b.spec))
        (init_objects p b external owns is_openshift)
unfolding init_objects sort_runtime_objects
init_objects-Safe p b external owns is_openshift c =
    Safe-bind _ (init_each p b owns runtime_config (new_model b external is_openshift)) _
      (init_each-Safe p b owns c.owns c.partial c.keeps_kind external runtime_config
        (new_model b external is_openshift) loadable refl
        (new_model-IsSound b external is_openshift))
      λ m built.
        let f = IsFinished-of_Built _ m built in
        Safe-bind _ (validate_each p b.spec m.runtime_objects m) _
          (validate_each-Safe p b.spec m.runtime_objects m f f.sound.objects
            built.follows.extends.local_db)
          λ m' after. (
            sorted-IsFinished p m' c.sorts (IsFinished-Follows m m' after f),
            after.extends.local_db ∙ built.follows.extends.local_db,
          )
  where
    with_documents :
        (confs : List ObjectConfig)
        → All (λ conf. factory_is_loadable conf ≡ true) confs
        → All (AreRead IsUsable p (raw_of external)) confs
        → All (IsLoadable p b owns c.owns c.partial external) confs
    with_documents [] tests documents = tt
    with_documents (conf ∷ confs) (test, tests) (document, documents) = (
      record {
        usable =
            and_left (is_sound_or_nil conf.object_factory) (is_unowned conf.object_factory) test;
        unowned =
            and_right (is_sound_or_nil conf.object_factory) (is_unowned conf.object_factory) test;
        documents = document;
      },
      with_documents confs tests documents,
    )

    loadable : All (IsLoadable p b owns c.owns c.partial external) runtime_config
    loadable = with_documents runtime_config factories-are_loadable c.documents
