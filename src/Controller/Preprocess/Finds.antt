-- ===== src/Controller/Preprocess/Finds.antt =====
-- What lookups find in a map, and in a map that another one was copied into.
use mathlib.Core.List.{Perm}
use janus_idp_operator.Prelude.{
  String, Option, none, some, List, [], ◌∷◌, ◌≡◌, refl, arith, eq_iff, if◌then◌else◌,
}
use janus_idp_operator.StringMap.{StringMap, lookup, insert, keys, get_or_empty}
use janus_idp_operator.StringMap.Laws.{lookup-insert}
use janus_idp_operator.StringMap.Keys.{contains, contains-perm, lookup-keys}
use janus_idp_operator.GoError.{Outcome, ok, err, panic, Gives}
use janus_idp_operator.Controller.Preprocess.{copy_each}

abbrev pub Finds {ℓ} : {T : Type ℓ} → (String → Option T) → StringMap T → Type ℓ
Finds f m = (name : String) → lookup name m ≡ f name

-- What is found first, if anything is.
abbrev pub or_else {ℓ} : {A : Type ℓ} → Option A → Option A → Option A
or_else none later = later
or_else (some a) later = some a

pub Gives-Finds :
    {T : Type 0} (f g : String → Option T) (o : Outcome (StringMap T))
    → ((name : String) → f name ≡ g name)
    → Gives (Finds f) o
    → Gives (Finds g) o
Gives-Finds f g (ok m) agree holds = λ name. cc (holds name, agree name)
Gives-Finds f g (err e) agree holds = holds
Gives-Finds f g panic agree holds = holds

copy_each_lem :
    (src : StringMap String) (ks : List String) (dst : StringMap String) (k : String)
    → lookup k (copy_each src ks dst)
      ≡ (if contains ks k then some (get_or_empty k src) else lookup k dst)
unfolding copy_each
copy_each_lem src [] dst k = refl
copy_each_lem src (n ∷ ns) dst k = ground (
  arith,
  copy_each_lem src ns (insert n (get_or_empty n src) dst) k,
  lookup-insert n (get_or_empty n src) k dst,
  eq_iff n k,
)

-- A map that another one was copied into, in whatever order of its keys, has the entries of that
-- one, and its own beside them.
pub lookup-copy_each :
    (src : StringMap String) (ks : List String) (dst : StringMap String) (k : String)
    → Perm ks (keys src)
    → lookup k (copy_each src ks dst) ≡ or_else (lookup k src) (lookup k dst)
lookup-copy_each src ks dst k q =
    ground (arith, copy_each_lem src ks dst k, contains-perm k ks (keys src) q, lookup-keys k src)
