-- ===== src/Model/Returns/Loading.antt =====
-- The reading of the default files and of the raw configuration.
use janus_idp_operator.Prelude.{
  String, Bool, true, not, ◌||◌, ◌^◌, Option, none, some, is_some, ◌≡◌, refl, ◌∙◌, if◌then◌else◌,
  ap, arith, subst, sym,
}
use janus_idp_operator.StringMap.{lookup}
use janus_idp_operator.GoError.{
  OnOk, Outcome, ok, err, panic, ◌>>=◌, Reply, answered, failed, or_fail, wrap, errorf, error_text,
  has_reason, not_exist,
}
use janus_idp_operator.GoError.Errless.{Errless, Errless-bind, Errless-if, Errless-map}
use janus_idp_operator.Kube.{KubeObject}
use janus_idp_operator.Platform.{Platform}
use janus_idp_operator.Utils.{read_yaml}
use janus_idp_operator.Model.Objects.{RuntimeObject, type_code, object, empty_object, set_object}
use janus_idp_operator.Model.Objects.Pointers.{Holds}
use janus_idp_operator.Model.State.{ExternalConfig}
use janus_idp_operator.Model.Runtime.{ObjectConfig, load_default, load_overlay}
use janus_idp_operator.Model.Returns.{installer_in}
use janus_idp_operator.Model.Returns.MetaInfo.{
  installer_of, installer_in-object, set_object-Errless,
}
use janus_idp_operator.Model.Documents.{default_of, base_of}
use janus_idp_operator.Model.Returns.Provided.{is_ok, is_read_or_missing, is_answered, IsEquipped}

-- An instance of a class that has the installer if it is a deployment, and that has its object.
pub record IsFit (new : RuntimeObject) (there : Bool) (o : RuntimeObject) : Type 0 where
  pub class : type_code o ≡ type_code new
  pub installer : installer_in o ≡ true
  pub present : there ≡ true → is_some (object o) ≡ true

IsFit-Holds :
    (o : RuntimeObject) (k : KubeObject) (there : Bool) (new o' : RuntimeObject)
    → type_code o ≡ type_code new
    → installer_of k ≡ true
    → Holds o k o'
    → IsFit new there o'
IsFit-Holds o k there new o' class e h = record {
  class = h.class ∙ class;
  installer = installer_in-object o' k h.object_is ∙ e;
  present = λ _. ap is_some h.object_is;
}

abbrev Equipped : Outcome KubeObject → Type 0
Equipped = OnOk (λ k. installer_of k ≡ true)

module _ (p : Platform) where
  read_yaml-Equipped :
      (document : String) (o : KubeObject)
      → ((k : KubeObject) → p.decode document o ≡ answered k → IsEquipped k)
      → Equipped (read_yaml p document o)
  unfolding read_yaml
  read_yaml-Equipped document o equips = go (p.decode document o) equips
    where
      go :
          (r : Reply KubeObject)
          → ((k : KubeObject) → r ≡ answered k → IsEquipped k)
          → Equipped (or_fail (wrap "failed to decode YAML: ") r)
      go (answered k) h = h k refl
      go (failed e) h = tt

  is_ok-read_yaml :
      (document : String) (o : KubeObject)
      → is_answered (p.decode document o) ≡ true
      → is_ok (read_yaml p document o) ≡ true
  unfolding read_yaml
  is_ok-read_yaml document o e = go (p.decode document o) e
    where
      go :
          (r : Reply KubeObject)
          → is_answered r ≡ true
          → is_ok (or_fail (wrap "failed to decode YAML: ") r) ≡ true
      go (answered k) e = refl
      go (failed x) e = cc e

  -- What holds of the value, if there is one.
  OnOk-of : (o : Outcome KubeObject) → ((k : KubeObject) → o ≡ ok k → IsEquipped k) → Equipped o
  OnOk-of (ok k) h = h k refl
  OnOk-of (err e) h = tt
  OnOk-of panic h = tt

  pub load_default-Errless :
      (conf : ObjectConfig)
      → installer_in conf.object_factory ≡ true
      → is_read_or_missing (default_of p conf) ≡ true
      → ((k : KubeObject) → default_of p conf ≡ ok k → IsEquipped k)
      → Errless
          (λ (x : RuntimeObject × KubeObject).
            IsFit conf.object_factory (is_ok (default_of p conf)) x.0)
          (load_default p conf)
  unfolding load_default
  load_default-Errless conf e readable equips =
      go (default_of p conf) (OnOk-of (default_of p conf) equips) readable
    where
      go :
          (r : Outcome KubeObject)
          → Equipped r
          → is_read_or_missing r ≡ true
          → Errless
              (λ (x : RuntimeObject × KubeObject). IsFit conf.object_factory (is_ok r) x.0)
              (elim r [
                | ok obj ↦ (set_object conf.object_factory obj >>= λ o. ok (o, obj))
                | err e ↦
                    if not (has_reason not_exist e)
                    then err (
                        errorf (
                          "failed to read default value for the key "
                          ^ conf.key
                          ^ ", reason: "
                          ^ error_text e))
                    else ok (conf.object_factory, empty_object conf.object_factory)
                | panic ↦ panic
              ])
      go (ok obj) equipped there =
          Errless-bind _ (set_object conf.object_factory obj) _
            (set_object-Errless conf.object_factory obj)
            λ o _ h. IsFit-Holds conf.object_factory obj true conf.object_factory o refl equipped h
      go (err x) equipped missing =
          Errless-if _ (not (has_reason not_exist x)) _ _ (λ other. cc (missing, other))
            λ _. record { class = refl; installer = e; present = λ there. cc there }
      go panic equipped there = tt

  pub load_overlay-Errless :
      (external : ExternalConfig) (conf : ObjectConfig) (there : Bool) (o : RuntimeObject)
      (obj : KubeObject)
      → obj ≡ base_of p conf
      → ((document : String)
          → lookup conf.key external.raw_config ≡ some document
          → is_answered (p.decode document (base_of p conf)) ≡ true)
      → ((document : String) (k : KubeObject)
          → lookup conf.key external.raw_config ≡ some document
          → p.decode document (base_of p conf) ≡ answered k
          → IsEquipped k)
      → IsFit conf.object_factory there o
      → Errless
          (IsFit conf.object_factory (there || is_some (lookup conf.key external.raw_config)))
          (load_overlay p external conf o obj)
  unfolding load_overlay
  load_overlay-Errless external conf there o obj base decodes equips fit =
      over (lookup conf.key external.raw_config) decodes equips
    where
      go :
          (r : Outcome KubeObject)
          → Equipped r
          → is_ok r ≡ true
          → Errless (IsFit conf.object_factory (there || true)) (elim r [
            | ok obj' ↦ set_object o obj'
            | err e ↦ err (
                errorf (
                  "failed to read overlay value for the key "
                  ^ conf.key
                  ^ ", reason: "
                  ^ error_text e))
            | panic ↦ panic
          ])
      go (ok obj') equipped e =
          Errless-map (Holds o obj') _ (set_object o obj') (set_object-Errless o obj')
            λ o' h. IsFit-Holds o obj' _ conf.object_factory o' fit.class equipped h
      go (err x) equipped e = cc e
      go panic equipped e = tt

      over :
          (x : Option String)
          → ((document : String)
              → x ≡ some document
              → is_answered (p.decode document (base_of p conf)) ≡ true)
          → ((document : String) (k : KubeObject)
              → x ≡ some document
              → p.decode document (base_of p conf) ≡ answered k
              → IsEquipped k)
          → Errless (IsFit conf.object_factory (there || is_some x)) (elim x [
            | none ↦ ok o
            | some overlay ↦ elim (read_yaml p overlay obj) [
              | ok obj' ↦ set_object o obj'
              | err e ↦ err (
                  errorf (
                    "failed to read overlay value for the key "
                    ^ conf.key
                    ^ ", reason: "
                    ^ error_text e))
              | panic ↦ panic
            ]
          ])
      over none decodes equips = record {
        class = fit.class;
        installer = fit.installer;
        present = λ e. fit.present (ground (arith, e));
      }
      over (some document) decodes equips =
          go (read_yaml p document obj)
            (read_yaml-Equipped document obj
              λ k e. equips document k refl (subst (λ x. p.decode document x ≡ answered k) base e))
            (is_ok-read_yaml document obj (
              subst (λ x. is_answered (p.decode document x) ≡ true) (sym base)
                (decodes document refl)))
