-- ===== src/Model/Returns/Whole.antt =====
-- InitObjects as a whole: if the configuration is complete and has what is asked for, it returns a
-- model.
use janus_idp_operator.Prelude.{
  String, Option, Bool, true, List, [], ◌∷◌, ◌^◌, ◌≡◌, refl, sym, subst, All, if◌then◌else◌,
  is_some,
}
use janus_idp_operator.StringMap.{lookup}
use janus_idp_operator.GoError.{Any, OnOk, Outcome, ok, err, panic, Gives, errorf, error_text}
use janus_idp_operator.GoError.Errless.{Errless, Errless-bind, Errless-if, Gives-of_Safe}
use janus_idp_operator.Api.{Backstage, is_local_db_enabled}
use janus_idp_operator.Platform.{Platform}
use janus_idp_operator.Model.Objects.{RuntimeObject, type_code, object}
use janus_idp_operator.Model.State.{ExternalConfig, Ref, BackstageModel, load, alloc}
use janus_idp_operator.Model.Methods.{add_to_model}
use janus_idp_operator.Model.Runtime.{
  ObjectConfig, runtime_config, new_model, load_default, load_overlay, set_meta_info,
  set_meta_info_at, add_object, init_object, init_each, validate_each, init_objects,
}
use janus_idp_operator.Model.Soundness.Validation.{IsFinished}
use janus_idp_operator.Model.Soundness.Whole.{IsConfigured, raw_of, init_objects-Safe}
use janus_idp_operator.Kube.{KubeObject}
use janus_idp_operator.Model.Documents.{default_of, base_of, load_default-base}
use janus_idp_operator.Model.Returns.{installer_in, IsReady, store-IsReady}
use janus_idp_operator.Model.Returns.Finish.{load-Errless}
use janus_idp_operator.Model.Returns.MetaInfo.{set_meta_info-Errless}
use janus_idp_operator.Model.Returns.Validation.{validate_each-Errless}
use janus_idp_operator.Model.Returns.Registration.{add_to_model-Errless}
use janus_idp_operator.Model.Returns.Provided.{is_needed, is_given, is_ok, IsServed, IsProvided}
use janus_idp_operator.Model.Returns.Loading.{IsFit, load_default-Errless, load_overlay-Errless}

module _ (p : Platform) (b : Backstage) (owns : Bool) (external : ExternalConfig)
    (provided : IsProvided p b.spec (λ key. lookup key external.raw_config)) where
  abbrev raw : String → Option String
  raw key = lookup key external.raw_config

  abbrev Ready : BackstageModel → Type 0
  Ready = IsReady (is_local_db_enabled b.spec) external

  set_meta_info_at-Errless :
      (r : Ref) (m : BackstageModel) → Ready m → Errless Ready (set_meta_info_at p b owns r m)
  unfolding set_meta_info_at
  set_meta_info_at-Errless r m ready = Errless-bind Ready (load m r) _ (load-Errless m r) λ o _ n.
      Errless-bind Ready (set_meta_info p b owns o) _
        (set_meta_info-Errless p b owns o (cc (ready.installers r, n)))
        λ o' _ e. store-IsReady _ external m r o' e ready

  add_object-Errless :
      (o : RuntimeObject) (m : BackstageModel)
      → installer_in o ≡ true
      → (is_needed (is_local_db_enabled b.spec) (type_code o) ≡ true → is_some (object o) ≡ true)
      → Ready m
      → Errless Ready (add_object p b owns o m)
  unfolding add_object
  add_object-Errless o m e needed ready =
      go (add_to_model p o m.next b.spec (alloc o m))
        (add_to_model-Errless _ external p m.next (alloc o m) allocated o b.spec e needed)
    where
      allocated : Ready (alloc o m)
      allocated = record {
        installers = (store-IsReady _ external m m.next o e ready).installers;
        setting = ready.setting;
        config = ready.config;
      }

      go :
          (x : Outcome (Bool × BackstageModel))
          → Errless (λ (y : Bool × BackstageModel). Ready y.1) x
          → Errless Ready (elim x [
            | ok (added, m') ↦ if added then set_meta_info_at p b owns m.next m' else ok m'
            | err e ↦
                err (
                  errorf ("failed to initialize " ^ p.format_object o ^ " reason: " ^ error_text e))
            | panic ↦ panic
          ])
      go (ok (added, m')) ready' =
          Errless-if Ready added _ _ (λ _. set_meta_info_at-Errless m.next m' ready') λ _. ready'
      go (err x) h = h
      go panic h = tt

  init_object-Errless :
      (conf : ObjectConfig) (m : BackstageModel)
      → installer_in conf.object_factory ≡ true
      → IsServed p (is_local_db_enabled b.spec) raw conf
      → Ready m
      → Errless Ready (init_object p b owns conf m)
  unfolding init_object
  init_object-Errless conf m e served ready =
      Errless-bind Ready (load_default p conf) _
        (load_default-Errless p conf e served.readable served.equipped.default)
        λ loaded same fit.
          Errless-bind Ready (load_overlay p m.external_config conf loaded.0 loaded.1) _
            (subst
              (λ x.
                Errless (IsFit conf.object_factory (is_given p raw conf))
                  (load_overlay p x conf loaded.0 loaded.1))
              (sym ready.config)
              (load_overlay-Errless p external conf (is_ok (default_of p conf)) loaded.0 loaded.1
                (subst (OnOk (λ (x : RuntimeObject × KubeObject). x.1 ≡ base_of p conf)) same
                  (load_default-base p conf))
                served.decodes served.equipped.overlay fit))
            λ o _ given.
              add_object-Errless o m given.installer
                (λ needed. given.present (
                  served.given (
                    subst (λ c. is_needed (is_local_db_enabled b.spec) c ≡ true) given.class
                      needed)))
                ready

  init_each-Errless :
      (confs : List ObjectConfig) (m : BackstageModel)
      → All (λ conf. installer_in conf.object_factory ≡ true) confs
      → All (IsServed p (is_local_db_enabled b.spec) raw) confs
      → Ready m
      → Errless Ready (init_each p b owns confs m)
  unfolding init_each
  init_each-Errless [] m es served ready = ready
  init_each-Errless (conf ∷ confs) m (e, es) (first, served) ready =
      Errless-bind Ready (init_object p b owns conf m) _ (init_object-Errless conf m e first ready)
        λ m' _ ready'. init_each-Errless confs m' es served ready'

  init_objects-Errless :
      (is_openshift : Bool) → Errless Any (init_objects p b external owns is_openshift)
  unfolding init_objects
  init_objects-Errless is_openshift =
      Errless-bind Any (init_each p b owns runtime_config (new_model b external is_openshift)) _
        (init_each-Errless runtime_config (new_model b external is_openshift) factories
          provided.classes (record { installers = λ r. refl; setting = refl; config = refl }))
        λ m _ ready.
          Errless-bind Any (validate_each p b.spec m.runtime_objects m) _
            (validate_each-Errless p b.spec provided.keys _ external m.runtime_objects m ready)
            λ m' _ _. tt
    where
      factories : All (λ conf. installer_in conf.object_factory ≡ true) runtime_config
      factories = (
        refl,
        (refl, (refl, (refl, (refl, (refl, (refl, (refl, (refl, (refl, (refl, (refl, tt))))))))))),
      )

-- InitObjects returns a model, which is finished, if the configuration is complete and has what
-- InitObjects asks for: for each class the default file decodes or is missing, and the entry of the
-- raw configuration, if there is one, decodes; one of the two has the deployment and the service, and
-- the stateful set and the service of the database where that is enabled; the deployment, as decoded
-- from each of the two, has the init container of the dynamic plugins; and each secret that the spec
-- mounts is given with a key.
pub init_objects-Gives :
    (p : Platform) (b : Backstage) (external : ExternalConfig) (owns is_openshift : Bool)
    → IsConfigured p b.spec (raw_of external)
    → IsProvided p b.spec (raw_of external)
    → Gives
        (λ m. IsFinished m × (m.local_db_enabled ≡ is_local_db_enabled b.spec))
        (init_objects p b external owns is_openshift)
init_objects-Gives p b external owns is_openshift c provided =
    Gives-of_Safe _ Any (init_objects p b external owns is_openshift)
      (init_objects-Safe p b external owns is_openshift c)
      (init_objects-Errless p b owns external provided is_openshift)
