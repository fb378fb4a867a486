-- ===== src/StringMap/Keys.antt =====
-- The keys of a map, and lists of keys in any order.
use mathlib.Core.List.{Mem, mem-cons, not-mem-nil, mem-cons_self, mem-cons_of_mem, Perm}
use mathlib.Core.List.Perm
use mathlib.Core.Logic.Or
use mathlib.Core.Bool.{Bool-set}
use janus_idp_operator.Prelude.{
  String, Bool, true, false, ◌||◌, some, none, List, [], ◌∷◌, ◌==◌, ◌≡◌, refl, sym, arith, eq_iff,
  if◌then◌else◌, Bool-cases, inl, inr,
}
use janus_idp_operator.StringMap.{StringMap, lookup, keys, get_or_empty}

-- A key is among those of a list.
abbrev pub contains : List String → String → Bool
contains [] k = false
contains (n ∷ ns) k = n == k || contains ns k

Bool-ext : {a b : Bool} → (a ≡ true → b ≡ true) → (b ≡ true → a ≡ true) → a ≡ b
Bool-ext {a} {b} f g = elim (Bool-cases a) [
  | inl e ↦ cc (f e)
  | inr e ↦ elim (Bool-cases b) [ inl e' ↦ cc (g e') | inr e' ↦ cc (e, e') ]
]

pub contains_of_mem : (k : String) (ns : List String) → Mem k ns → contains ns k ≡ true
contains_of_mem k [] m = absurd (not-mem-nil m)
contains_of_mem k (n ∷ ns) m =
    Or.elim (λ x y. Bool-set _ _ x y) (mem-cons.0 m) (λ e. ground (arith, (eq_iff n k).1 (sym e)))
      (λ rest. ground (arith, contains_of_mem k ns rest))

pub mem_of_contains : (k : String) (ns : List String) → contains ns k ≡ true → Mem k ns
mem_of_contains k [] e = cc
mem_of_contains k (n ∷ ns) e = elim (Bool-cases (n == k)) [
  | inl q ↦ rw (sym ((eq_iff n k).0 q)) mem-cons_self
  | inr q ↦ mem-cons_of_mem n (mem_of_contains k ns (ground arith))
]

-- Lists in different orders have the same keys.
pub contains-perm : (k : String) (ns ms : List String) → Perm ns ms → contains ns k ≡ contains ms k
contains-perm k ns ms q =
    Bool-ext (λ e. contains_of_mem k ms (Perm.subset q k (mem_of_contains k ns e)))
      (λ e. contains_of_mem k ns (Perm.subset (Perm.symm q) k (mem_of_contains k ms e)))

-- A key is among a map's keys if and only if a lookup finds it.
pub lookup-keys :
    (k : String) (m : StringMap String)
    → lookup k m ≡ (if contains (keys m) k then some (get_or_empty k m) else none)
unfolding lookup keys get_or_empty
lookup-keys k [] = refl
lookup-keys k ((j, v) ∷ m) = ground (arith, lookup-keys k m)
