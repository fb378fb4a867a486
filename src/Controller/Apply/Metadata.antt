-- ===== src/Controller/Apply/Metadata.antt =====
-- Which metadata a patched object has.
use mathlib.Core.List.{Mem, mem-cons_self, mem-cons_of_mem, Perm}
use mathlib.Core.List.Perm
use janus_idp_operator.Prelude.{
  String, ◌&&◌, Option, none, some, List, [], ◌∷◌, ◌==◌, ◌≡◌, ◌≢◌, refl, arith, eq_iff, ◌++◌,
  if◌then◌else◌, Bool-cases, inl, inr, sym,
}
use janus_idp_operator.StringMap.{StringMap, lookup, insert, keys, get_or_empty, get_nil}
use janus_idp_operator.StringMap.Laws.{lookup-insert}
use janus_idp_operator.StringMap.Keys.{contains, contains_of_mem}
use janus_idp_operator.Prelude.Counting.{length}
use janus_idp_operator.GoError.{GoError}
use janus_idp_operator.Kube.{ObjectMeta, KubeObject, meta_of, set_meta}
use janus_idp_operator.Platform.{Platform, VisitsAll, RangeSite, labels, annotations}
use janus_idp_operator.Controller.Requests.{Server, History, patch, send_write}
use janus_idp_operator.Controller.Apply.{restore_each, restore, patched_meta, patch_object, check}

get_or_empty-insert :
    (k j v : String) (m : StringMap String)
    → get_or_empty j (insert k v m) ≡ (if k == j then v else get_or_empty j m)
unfolding get_or_empty
get_or_empty-insert k j v m = ground (arith, lookup-insert k v j m)

get_or_empty-restore_each :
    (base : StringMap String) (names : List String) (own : StringMap String) (k : String)
    → get_or_empty k (restore_each base names own) ≡ (
        if (get_or_empty k own == "") && contains names k
        then get_or_empty k base
        else get_or_empty k own)
unfolding restore_each
get_or_empty-restore_each base [] own k = ground arith
get_or_empty-restore_each base (n ∷ ns) own k = ground (
  arith,
  get_or_empty-restore_each base ns own k,
  get_or_empty-restore_each base ns (insert n (get_or_empty n base) own) k,
  get_or_empty-insert n k (get_or_empty n base) own,
  eq_iff n k,
  eq_iff (get_or_empty k own) "",
  eq_iff (get_or_empty n own) "",
  eq_iff (get_or_empty n base) "",
  eq_iff (get_or_empty k base) "",
)

mem-keys : (k : String) (m : StringMap String) → get_or_empty k m ≢ "" → Mem k (keys m)
unfolding get_or_empty keys lookup
mem-keys k [] h = absurd (h refl)
mem-keys k ((j, v) ∷ m) h = elim (Bool-cases (j == k)) [
  | inl e ↦ rw (sym ((eq_iff j k).0 e)) mem-cons_self
  | inr e ↦ mem-cons_of_mem j (mem-keys k m (λ (q : get_or_empty k m ≡ ""). h (ground arith)))
]

-- The keys of the base are visited in any order: an empty value becomes the base's value.
pub restore_each_lem :
    (base : StringMap String) (names : List String) (own : StringMap String) (k : String)
    → Perm names (keys base)
    → get_or_empty k (restore_each base names own)
      ≡ (if get_or_empty k own == "" then get_or_empty k base else get_or_empty k own)
restore_each_lem base names own k visits = elim (Bool-cases (get_or_empty k base == "")) [
  | inl e ↦ ground (
    arith,
    get_or_empty-restore_each base names own k,
    eq_iff (get_or_empty k base) "",
    eq_iff (get_or_empty k own) "",
  )
  | inr e ↦ ground (
    arith,
    get_or_empty-restore_each base names own k,
    contains_of_mem k names (
        Perm.subset (Perm.symm visits) k
          (mem-keys k base (λ p. ground (arith, (eq_iff (get_or_empty k base) "").1 p)))),
  )
]

-- A key has the value that the new map gives it, and that of the base where the new map gives none
-- or the empty text, where either map may be nil.
get_nil-restore :
    (p : Platform) (site : RangeSite) (h : History) (base own : Option (StringMap String))
    (k : String)
    → VisitsAll p
    → get_nil k (restore p site h base own)
      ≡ (if get_nil k own == "" then get_nil k base else get_nil k own)
unfolding get_nil restore
get_nil-restore p site h none none k v = refl
get_nil-restore p site h none (some own) k v = ground (arith, eq_iff (get_or_empty k own) "")
get_nil-restore p site h (some base) none k v =
    restore_each_lem base _ [] k (v site (length h) (keys base))
get_nil-restore p site h (some base) (some own) k v =
    restore_each_lem base _ own k (v site (length h) (keys base))

-- The metadata that is sent for the new object.
pub record IsPatched (base own m : ObjectMeta) : Type 0 where
  pub labels :
      (k : String)
      → get_nil k m.labels
        ≡ (if get_nil k own.labels == "" then get_nil k base.labels else get_nil k own.labels)
  pub annotations :
      (k : String)
      → get_nil k m.annotations ≡ (
          if get_nil k own.annotations == ""
          then get_nil k base.annotations
          else get_nil k own.annotations)
  pub resource_version : m.resource_version ≡ base.resource_version
  pub name : m.name ≡ own.name
  pub namespace : m.namespace ≡ own.namespace
  pub owner_references : m.owner_references ≡ own.owner_references

check-history :
    (p : Platform) (s : Server) (f : GoError → GoError) (r : Option GoError) (h : History)
    → (check p s f r h).1 ≡ h
check-history p s f none h = refl
check-history p s f (some e) h = refl

-- patchObject sends one patch against the object in the cluster, and nothing else: the new object
-- with its name, namespace and owner references, with the resource version of the object in the
-- cluster, and with labels and annotations in which a key has the value that the new object gives
-- it, and the value of the object in the cluster where the new object gives none or the empty text.
-- This holds in whatever order the keys are visited, and where any of the maps is nil.
pub patch_object-IsPatched :
    (p : Platform) (s : Server) (base own : KubeObject) (h : History)
    → VisitsAll p
    → (m : ObjectMeta) × ((patch_object p s base own h).1 ≡ h ++ patch (set_meta m own) base ∷ [])
      × IsPatched (meta_of base) (meta_of own) m
unfolding patch_object patched_meta send_write
patch_object-IsPatched p s base own h v = (
  patched_meta p h (meta_of base) (meta_of own),
  check-history p s _ _ _,
  record {
    labels = λ k. get_nil-restore p labels h (meta_of base).labels (meta_of own).labels k v;
    annotations = λ k.
        get_nil-restore p annotations h (meta_of base).annotations (meta_of own).annotations k v;
    resource_version = refl;
    name = refl;
    namespace = refl;
    owner_references = refl;
  },
)
