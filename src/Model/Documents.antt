-- ===== src/Model/Documents.antt =====
-- The documents that InitObjects decodes: for each class its default file, and its entry of the raw
-- configuration.
use janus_idp_operator.Prelude.{
  String, Bool, true, false, Option, some, not, ◌^◌, ◌≡◌, refl, if◌then◌else◌,
}
use janus_idp_operator.GoError.{
  GoError, Outcome, ok, err, panic, ◌>>=◌, OnOk, answered, errorf, error_text, has_reason,
  not_exist,
}
use janus_idp_operator.Kube.{KubeObject}
use janus_idp_operator.Platform.{Platform}
use janus_idp_operator.Utils.{read_yaml_file, def_file}
use janus_idp_operator.Model.Objects.{RuntimeObject, empty_object, set_object}
use janus_idp_operator.Model.Runtime.{ObjectConfig, load_default}

-- What is read for the default configuration of a class.
abbrev pub default_of : Platform → ObjectConfig → Outcome KubeObject
default_of p conf = read_yaml_file p (def_file p conf.key) (empty_object conf.object_factory)

abbrev pub or_empty : ObjectConfig → Outcome KubeObject → KubeObject
or_empty conf (ok k) = k
or_empty conf _ = empty_object conf.object_factory

-- The object that an entry of the raw configuration is decoded into: the default one, and an empty
-- one if there is none.
abbrev pub base_of : Platform → ObjectConfig → KubeObject
base_of p conf = or_empty conf (default_of p conf)

-- Each object that is decoded for the class is one that `P` holds of.
pub record AreRead (P : KubeObject → Type 0) (p : Platform) (raw : String → Option String)
    (conf : ObjectConfig) : Type 0 where
  pub default : (k : KubeObject) → default_of p conf ≡ ok k → P k
  pub overlay :
      (document : String) (k : KubeObject)
      → raw conf.key ≡ some document
      → p.decode document (base_of p conf) ≡ answered k
      → P k

pub load_default-base :
    (p : Platform) (conf : ObjectConfig)
    → OnOk (λ (x : RuntimeObject × KubeObject). x.1 ≡ base_of p conf) (load_default p conf)
unfolding load_default
load_default-base p conf = go (default_of p conf)
  where
    set :
        (k : KubeObject) (x : Outcome RuntimeObject)
        → OnOk (λ (x : RuntimeObject × KubeObject). x.1 ≡ k) (x >>= λ o. ok (o, k))
    set k (ok o) = refl
    set k (err e) = tt
    set k panic = tt

    missing :
        (test : Bool) (e : GoError)
        → OnOk
            (λ (x : RuntimeObject × KubeObject). x.1 ≡ empty_object conf.object_factory)
            (if test then err e else ok (conf.object_factory, empty_object conf.object_factory))
    missing true e = tt
    missing false e = refl

    go :
        (r : Outcome KubeObject)
        → OnOk
            (λ (x : RuntimeObject × KubeObject). x.1 ≡ or_empty conf r)
            (elim r [
              | ok obj ↦ (set_object conf.object_factory obj >>= λ o. ok (o, obj))
              | err e ↦
                  if not (has_reason not_exist e)
                  then err (
                      errorf (
                        "failed to read default value for the key "
                        ^ conf.key
                        ^ ", reason: "
                        ^ error_text e))
                  else ok (conf.object_factory, empty_object conf.object_factory)
              | panic ↦ panic
            ])
    go (ok obj) = set obj (set_object conf.object_factory obj)
    go (err e) = missing (not (has_reason not_exist e)) _
    go panic = tt
