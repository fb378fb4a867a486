-- ===== src/Platform.antt =====
-- What the operator calls outside its own sources: the operating system, Go's standard library
-- and the Kubernetes libraries. Each is an argument of the definitions that use it.
use mathlib.Core.List.{Perm}
use janus_idp_operator.Prelude.{String, ℕ, ℤ, Bool, Option, List}
use janus_idp_operator.GoError.{GoError, Reply}
use janus_idp_operator.Kube.{ObjectMeta, KubeObject}
use janus_idp_operator.Api.{Backstage, Condition}
use janus_idp_operator.Model.Objects.{RuntimeObject}

-- The loops of the program over a map's keys.
pub data RangeSite : Type 0 where
  mounts arguments labels annotations raw_config : RangeSite

pub record Platform : Type 0 where
  -- os.Getenv, os.Stat (its error), os.ReadFile
  pub getenv : String → String
  pub stat : String → Option GoError
  pub read_file : String → Reply String
  -- filepath.Clean, filepath.Join
  pub clean : String → String
  pub join : List String → String
  -- the decoder of k8s.io/apimachinery/pkg/util/yaml: it fills in the object that it is given
  pub decode : String → KubeObject → Reply KubeObject
  -- rand.Read into a buffer of that length, base64.StdEncoding.EncodeToString, strconv.FormatInt
  pub rand_read : ℕ → Reply (List ℕ)
  pub base64 : List ℕ → String
  pub format_int : ℤ → String
  -- The order in which `range` visits the keys of a map: Go leaves it open, so it depends on
  -- the loop, and on a number that grows from one run of that loop to the next.
  pub range_order : RangeSite → ℕ → List String → List String
  -- sort.Slice over addresses of objects, with its `less`
  pub sort_slice : (ℕ → ℕ → Bool) → List ℕ → List ℕ
  -- controllerutil.SetControllerReference: it writes an owner reference into the metadata
  pub set_controller_reference : Backstage → ObjectMeta → Reply ObjectMeta
  -- fmt.Sprintf("%s", object)
  pub format_object : RuntimeObject → String
  pub format_kube_object : KubeObject → String
  -- meta.SetStatusCondition of k8s.io/apimachinery/pkg/api/meta
  pub set_condition : List Condition → Condition → List Condition

-- The order in which `range` visits the keys of a map is some order of those keys.
abbrev pub VisitsAll : Platform → Type 0
VisitsAll p = (site : RangeSite) (n : ℕ) (ks : List String) → Perm (p.range_order site n ks) ks
