-- ===== src/Examples/Sound.antt =====
-- The configuration of the tests is complete.
use mathlib.Core.List.Perm
use janus_idp_operator.GoError.{ok, Any, answered, Safe}
use janus_idp_operator.Kube.{KubeObject, kind_of, zero_config_map}
use janus_idp_operator.Api.{Backstage, BackstageSpec, is_local_db_enabled}
use janus_idp_operator.Model.Runtime.{init_objects}
use janus_idp_operator.Model.State.{ExternalConfig}
use janus_idp_operator.Model.Soundness.Validation.{IsFinished}
use janus_idp_operator.Model.Soundness.Loading.{KeepsKind, IsUsable}
use janus_idp_operator.Model.Soundness.MetaInfo.{OwnsAll}
use janus_idp_operator.Model.Soundness.Registration.{IsPartial}
use janus_idp_operator.Model.Documents.{AreRead}
use janus_idp_operator.Model.Runtime.{ObjectConfig, runtime_config}
use janus_idp_operator.Model.Objects.{RuntimeObject, empty_object}
use janus_idp_operator.Utils.{read_yaml, read_yaml_file}
use janus_idp_operator.StringMap.{lookup}
use janus_idp_operator.Controller.Requests.{History, get_backstage}
use janus_idp_operator.Controller.Preprocess.Wanted.{SpecThere}
use janus_idp_operator.Controller.Reconcile.Deploys.{Configures-begin}
use janus_idp_operator.Model.Soundness.Whole.{IsConfigured, raw_of, init_objects-Safe}
use janus_idp_operator.Prelude.{
  String, Bool, false, Option, none, some, ◌==◌, if◌then◌else◌, ◌+◌, ◌*◌, ◌≤◌, true, [], ◌∷◌, ◌≡◌,
  refl, subst, arith, All,
}
use janus_idp_operator.Prelude.Counting.{length}
use janus_idp_operator.Controller.Requests.{Request}
use janus_idp_operator.Controller.Preprocess.Bounds.{named_config_maps}
use janus_idp_operator.Controller.Clean.Deletes.{unwanted}
use janus_idp_operator.Controller.Reconcile.Bounds.{reconcile_found-Bounded}
use janus_idp_operator.Controller.Reconcile.{reconcile, reconcile_found, begin}
use janus_idp_operator.Controller.Reconcile.Panics.{Configures, reconcile-Safe}
use janus_idp_operator.Examples.{
  sample-VisitsAll, sample_of, sample_platform, sample_backstage, sample_spec, sample_server,
  sample_reconciler, sample_request, sample_config_map,
}

pub decoded :
    (test : Bool) (x y k : KubeObject)
    → test ≡ false
    → (if test then answered x else answered y) ≡ answered k
    → y ≡ k
decoded true x y k t e = cc t
decoded false x y k t e = cc e

kind-decoded :
    (test : Bool) (o k : KubeObject)
    → (if test then answered o else answered (sample_of o)) ≡ answered k
    → kind_of k ≡ kind_of o
kind-decoded true o k e = subst (λ x. kind_of x ≡ kind_of o) (the_same o k e) refl
  where
    the_same : (x k : KubeObject) → answered x ≡ answered k → x ≡ k
    the_same x k e = cc e
kind-decoded false o k e =
    subst (λ x. kind_of x ≡ kind_of o) (the_same (sample_of o) k e) (kind-sample_of o)
  where
    kind-sample_of : (o : KubeObject) → kind_of (sample_of o) ≡ kind_of o
    kind-sample_of o = ground arith

    the_same : (x k : KubeObject) → answered x ≡ answered k → x ≡ k
    the_same x k e = cc e

sample-KeepsKind : KeepsKind sample_platform
sample-KeepsKind manifest o k e = kind-decoded (manifest == "{}") o k e

-- The default files and the documents that are not empty hold the sample objects.
pub sample-AreRead :
    (P : KubeObject → Type 0) (raw : String → Option String) (conf : ObjectConfig)
    → ((o : RuntimeObject) → P (sample_of (empty_object o)))
    → ((o : RuntimeObject) → P (sample_of (sample_of (empty_object o))))
    → ((document : String) → raw conf.key ≡ some document → (document == "{}") ≡ false)
    → AreRead P sample_platform raw conf
unfolding read_yaml_file read_yaml
sample-AreRead P raw conf first second filled = record {
  default = λ k e. subst P (the_same _ k e) (first conf.object_factory);
  overlay = λ document k there e.
      subst P (decoded (document == "{}") _ _ k (filled document there) e)
        (second conf.object_factory);
}
  where
    the_same : (x k : KubeObject) → ok x ≡ ok k → x ≡ k
    the_same x k e = cc e

sample_of-IsUsable : (o : RuntimeObject) → IsUsable (sample_of (empty_object o))
unfolding empty_object
sample_of-IsUsable o = ground arith

sample_of-sample_of-IsUsable :
    (o : RuntimeObject) → IsUsable (sample_of (sample_of (empty_object o)))
unfolding empty_object
sample_of-sample_of-IsUsable o = ground arith

-- What holds of every class holds of the registered ones.
pub of_each : (Q : ObjectConfig → Type 0) → ((conf : ObjectConfig) → Q conf) → All Q runtime_config
of_each Q q = (q _, (q _, (q _, (q _, (q _, (q _, (q _, (q _, (q _, (q _, (q _, (q _, tt))))))))))))

sample-owns : OwnsAll sample_platform
sample-owns b m same free = rw free (_, refl)

configured :
    (spec : BackstageSpec) (raw : String → Option String)
    → ((key document : String) → raw key ≡ some document → (document == "{}") ≡ false)
    → IsPartial spec
    → IsConfigured sample_platform spec raw
configured spec raw filled partial = record {
  keeps_kind = sample-KeepsKind;
  documents = of_each _ λ conf.
      sample-AreRead IsUsable raw conf sample_of-IsUsable sample_of-sample_of-IsUsable
        (filled conf.key);
  owns = sample-owns;
  sorts = λ lt rs. Perm.refl rs;
  partial = partial;
}

pub sample-IsConfigured : IsConfigured sample_platform sample_spec (λ key. none)
sample-IsConfigured = configured sample_spec (λ key. none) (λ key document e. cc e) λ x e. cc e

found : (b : Backstage) → answered sample_backstage ≡ answered b → sample_backstage ≡ b
found b e = cc e

abbrev sample_external : ExternalConfig
sample_external = record {
  raw_config = ("service.yaml", "kind: Service") ∷ [];
  app_configs = ("my-config", sample_config_map "my-config") ∷ [];
  extra_file_config_maps = [];
  extra_env_config_maps = [];
  dynamic_plugins = zero_config_map;
}

only_service :
    (test : Bool) (document : String)
    → (if test then some "kind: Service" else none) ≡ some document
    → (document == "{}") ≡ false
only_service true document e = subst (λ d. (d == "{}") ≡ false) (the_same document e) refl
  where
    the_same : (d : String) → some "kind: Service" ≡ some d → "kind: Service" ≡ d
    the_same d e = cc e
only_service false document e = cc e

service_document :
    (key document : String)
    → lookup key sample_external.raw_config ≡ some document
    → (document == "{}") ≡ false
unfolding lookup
service_document key document e = only_service ("service.yaml" == key) document e

-- The same with an entry for the service.
external-IsConfigured : IsConfigured sample_platform sample_spec (raw_of sample_external)
external-IsConfigured = configured sample_spec (raw_of sample_external) service_document λ x e. cc e

init_objects-Safe_example :
    Safe
      (λ m. IsFinished m × (m.local_db_enabled ≡ is_local_db_enabled sample_spec))
      (init_objects sample_platform sample_backstage sample_external true true)
init_objects-Safe_example =
    init_objects-Safe sample_platform sample_backstage sample_external true true
      external-IsConfigured

pub sample_server-SpecThere :
    SpecThere (λ name. sample_config_map name) sample_server "team" sample_spec
sample_server-SpecThere = record {
  raw = tt;
  app_configs = (((λ h. refl), refl), tt);
  extra_files = tt;
  extra_envs = tt;
  plugins = λ e. ((λ h. refl), refl);
}

sample-Configures :
    (h : History)
    → Configures sample_platform sample_server sample_reconciler
        (begin sample_platform sample_backstage)
        h
sample-Configures h =
    Configures-begin sample_platform sample_server sample_reconciler
      (λ name. sample_config_map name) sample_backstage h sample-VisitsAll sample_server-SpecThere
      sample-IsConfigured

reconcile-Safe_example :
    Safe Any (reconcile sample_platform sample_server sample_reconciler sample_request []).0
reconcile-Safe_example =
    reconcile-Safe sample_platform sample_server sample_reconciler sample_request [] λ b e.
      subst
        (λ b.
          Configures sample_platform sample_server sample_reconciler (begin sample_platform b)
            (get_backstage sample_request ∷ []))
        (found b e) (sample-Configures (get_backstage sample_request ∷ []))

reconcile_found-Bounded_example :
    length (reconcile_found sample_platform sample_server sample_reconciler sample_backstage []).1
    ≤ length {A = Request} []
      + (named_config_maps sample_spec + (2 * 12 + length (unwanted true sample_backstage)) + 1)
reconcile_found-Bounded_example =
    reconcile_found-Bounded sample_platform sample_server sample_reconciler sample_backstage []
      (sample-Configures [])
