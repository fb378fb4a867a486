-- ===== src/Model/Soundness/Building.antt =====
-- The first phase of InitObjects: the loop over the registered classes.
use janus_idp_operator.Prelude.{
  ℕ, Bool, true, List, [], ◌∷◌, ◌^◌, ◌≡◌, refl, sym, ◌∙◌, same_refl, subst, arith, All,
  if◌then◌else◌,
}
use janus_idp_operator.GoError.{Outcome, ok, err, panic, Safe, OnOk, errorf, error_text}
use janus_idp_operator.GoError.Safety.{Safe-bind, Safe-map, Safe-if}
use janus_idp_operator.Api.{Backstage}
use janus_idp_operator.Platform.{Platform}
use janus_idp_operator.Model.Objects.{RuntimeObject, type_code}
use janus_idp_operator.Model.State.{ExternalConfig, Ref, BackstageModel, load, alloc}
use janus_idp_operator.Model.Methods.{add_to_model}
use janus_idp_operator.Model.Runtime.{
  ObjectConfig, load_default, load_overlay, set_meta_info, set_meta_info_at, add_object,
  init_object, init_each,
}
use janus_idp_operator.Model.Soundness.{is_sound_or_nil, is_live, IsSound}
use janus_idp_operator.Model.Soundness.Heaps.{Follows, Follows-trans, alloc-Follows}
use janus_idp_operator.Model.Soundness.Validation.{Follows-refl, restore-Follows}
use janus_idp_operator.Model.Soundness.Cells.{load-live}
use janus_idp_operator.Model.Soundness.Adding.{Registered, Added}
use janus_idp_operator.Model.Soundness.Registration.{IsPartial, add_to_model-Safe}
use janus_idp_operator.Model.Soundness.MetaInfo.{OwnsAll, set_meta_info-Safe}
use janus_idp_operator.StringMap.{lookup}
use janus_idp_operator.Model.Documents.{AreRead}
use janus_idp_operator.Model.Soundness.Owners.{is_unowned, is_unowned_at, add_to_model-Unowned}
use janus_idp_operator.Model.Soundness.Loading.{
  KeepsKind, IsUsable, Instance, load_default-Safe, load_overlay-Safe,
}

-- A pointer that is set stays set.
Registered-Follows :
    (c : ℕ) (m m' : BackstageModel) → Follows m m' → Registered c m → Registered c m'
Registered-Follows c m m' f g = record {
  deployment = λ q. f.extends.deployment (g.deployment q);
  service = λ q. f.extends.service (g.service q);
  stateful_set = λ q on. f.extends.stateful_set (g.stateful_set q (sym f.extends.local_db ∙ on));
  db_service = λ q on. f.extends.db_service (g.db_service q (sym f.extends.local_db ∙ on));
}

-- What a round of the loop does: the model stays sound, and the class of the round is registered.
pub record Round (c : ℕ) (m m' : BackstageModel) : Type 0 where
  pub follows : Follows m m'
  pub registered : Registered c m'

-- The whole loop: every class of the list has been registered.
pub record Built (confs : List ObjectConfig) (m m' : BackstageModel) : Type 0 where
  pub follows : Follows m m'
  pub registered : All (λ conf. Registered (type_code conf.object_factory) m') confs

module _ (p : Platform) (backstage : Backstage) (owns : Bool) (owned : OwnsAll p)
    (partial : IsPartial backstage.spec) where
  set_meta_info_at-Safe :
      (r : Ref) (m : BackstageModel)
      → IsSound m
      → is_live (m.heap r) ≡ true
      → is_unowned_at (m.heap r) ≡ true
      → Safe (Follows m) (set_meta_info_at p backstage owns r m)
  unfolding set_meta_info_at
  set_meta_info_at-Safe r m s live free =
      Safe-bind (Follows m) (load m r) _ (load-live m r live) λ o (e, sound).
        Safe-bind (Follows m) (set_meta_info p backstage owns o) _
          (set_meta_info-Safe p backstage owns owned o sound
            (subst (λ x. is_unowned_at x ≡ true) e free))
          λ o' h. restore-Follows m r o o' e (sym h.class) h.live s

  add_object-Safe :
      (o : RuntimeObject) (m : BackstageModel)
      → is_sound_or_nil o ≡ true
      → is_unowned o ≡ true
      → IsSound m
      → Safe (Round (type_code o) m) (add_object p backstage owns o m)
  unfolding add_object
  add_object-Safe o m usable free s =
      let f : Follows m (alloc o m) = alloc-Follows m o s in
      go (add_to_model p o m.next backstage.spec (alloc o m)) f
        (add_to_model-Safe p m.next (alloc o m) f.sound (omega arith) o backstage.spec partial
          (rw (same_refl m.next) refl) usable)
        (add_to_model-Unowned p m.next (alloc o m) (rw (same_refl m.next) free) o backstage.spec
          free)
    where
      go :
          (r : Outcome (Bool × BackstageModel))
          → Follows m (alloc o m)
          → Safe (Added m.next (type_code o) (alloc o m)) r
          → OnOk (λ (y : Bool × BackstageModel). is_unowned_at (y.1.heap m.next) ≡ true) r
          → Safe (Round (type_code o) m) (elim r [
            | ok (added, m') ↦ if added then set_meta_info_at p backstage owns m.next m' else ok m'
            | err e ↦
                err (
                  errorf ("failed to initialize " ^ p.format_object o ^ " reason: " ^ error_text e))
            | panic ↦ panic
          ])
      go (ok (added, m')) f a free' =
          let f' : Follows m m' = Follows-trans m (alloc o m) m' f a.follows in
          Safe-if (Round (type_code o) m) added _ _
            (λ t.
              Safe-map (Follows m') (Round (type_code o) m)
                (set_meta_info_at p backstage owns m.next m')
                (set_meta_info_at-Safe m.next m' f'.sound (a.live t) free')
                λ m'' f''. record {
                  follows = Follows-trans m m' m'' f' f'';
                  registered = Registered-Follows (type_code o) m' m'' f'' a.registered;
                })
            (λ _. record { follows = f'; registered = a.registered })
      go (err e) f a free' = tt
      go panic f a free' = a

  -- A class of runtimeConfig: its factory makes an object without a Kubernetes object or a sound
  -- one, and what is decoded for it is usable.
  pub record IsLoadable (external : ExternalConfig) (conf : ObjectConfig) : Type 0 where
    pub usable : is_sound_or_nil conf.object_factory ≡ true
    pub unowned : is_unowned conf.object_factory ≡ true
    pub documents : AreRead IsUsable p (λ key. lookup key external.raw_config) conf

  module _ (keeps : KeepsKind p) (external : ExternalConfig) where
    init_object-Safe :
        (conf : ObjectConfig) (m : BackstageModel)
        → IsLoadable external conf
        → m.external_config ≡ external
        → IsSound m
        → Safe (Round (type_code conf.object_factory) m) (init_object p backstage owns conf m)
    unfolding init_object
    init_object-Safe conf m loadable config s =
        let c = type_code conf.object_factory in
        Safe-bind (Round c m) (load_default p conf) _
          (load_default-Safe p keeps conf loadable.usable loadable.unowned
            loadable.documents.default)
          λ (o₀, obj) loaded.
            Safe-bind (Round c m) (load_overlay p m.external_config conf o₀ obj) _
              (subst
                (λ x. Safe (Instance p keeps conf.object_factory) (load_overlay p x conf o₀ obj))
                (sym config)
                (load_overlay-Safe p keeps external conf o₀ obj loaded loadable.documents))
              λ o i.
                Safe-map (Round (type_code o) m) (Round c m) (add_object p backstage owns o m)
                  (add_object-Safe o m i.usable i.unowned s)
                  λ m' x. record {
                    follows = x.follows;
                    registered = subst (λ c. Registered c m') i.class x.registered;
                  }

    pub init_each-Safe :
        (confs : List ObjectConfig) (m : BackstageModel)
        → All (IsLoadable external) confs
        → m.external_config ≡ external
        → IsSound m
        → Safe (Built confs m) (init_each p backstage owns confs m)
    unfolding init_each
    init_each-Safe [] m loadable config s = record { follows = Follows-refl m s; registered = tt }
    init_each-Safe (conf ∷ confs) m (first, loadable) config s =
        Safe-bind (Built (conf ∷ confs) m) (init_object p backstage owns conf m) _
          (init_object-Safe conf m first config s)
          λ m' x.
            Safe-map (Built confs m') (Built (conf ∷ confs) m) (init_each p backstage owns confs m')
              (init_each-Safe confs m' loadable (x.follows.extends.external ∙ config)
                x.follows.sound)
              λ m'' y. record {
                follows = Follows-trans m m' m'' x.follows y.follows;
                registered = (
                  Registered-Follows (type_code conf.object_factory) m' m'' y.follows x.registered,
                  y.registered,
                );
              }
