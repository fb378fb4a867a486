-- ===== src/Model/State/Classes.antt =====
-- The slice of runtime objects as a map from classes to objects.
use mathlib.Core.List.{Perm, Permᴰ}
use mathlib.Core.List.Permᴰ.{nil, cons, swap, trans}
use mathlib.Core.Bool.{Bool-set}
use mathlib.Core.Logic.{∥∥₁_elim}
use janus_idp_operator.Prelude.{
  ap, ◌∙◌, subst, true, ℕ, zero, suc, ◌+◌, ◌≤◌, Bool, false, Option, none, some, List, [], ◌∷◌, ◌≡◌,
  refl, arith, same, same_iff, same_refl, Option-cases, Bool-cases, inl, inr, if◌then◌else◌,
}
use janus_idp_operator.Model.Objects.{RuntimeObject, type_code, same_type}
use janus_idp_operator.Model.State.{
  Heap, Ref, BackstageModel, replace_or_append, set_runtime_object,
}

-- The object at an address is of the class with that code.
abbrev pub has_class : ℕ → Option RuntimeObject → Bool
has_class c none = false
has_class c (some o) = same (type_code o) c

-- The first object of a class.
unfoldable pub find_class : Heap → ℕ → List Ref → Option Ref
find_class h c [] = none
find_class h c (q ∷ qs) = if has_class c (h q) then some q else find_class h c qs

unfoldable pub count_class : Heap → ℕ → List Ref → ℕ
count_class h c [] = 0
count_class h c (q ∷ qs) = (if has_class c (h q) then 1 else 0) + count_class h c qs

replace_or_append-finds :
    (h : Heap) (o : RuntimeObject) (r : Ref) (qs : List Ref) (c : ℕ)
    → h r ≡ some o
    → find_class h c (replace_or_append h o r qs)
      ≡ (if has_class c (some o) then some r else find_class h c qs)
unfolding replace_or_append find_class same_type
replace_or_append-finds h o r [] c e = rw e refl
replace_or_append-finds h o r (q ∷ qs) c e = elim (Option-cases (h q)) [
  | inl n ↦ ground (arith, n, replace_or_append-finds h o r qs c e)
  | inr (o', n) ↦ elim (Bool-cases (same (type_code o') (type_code o))) [
    | inl t ↦ ground (arith, n, e, t, same_iff (type_code o') (type_code o) t)
    | inr f ↦ ground (
      arith,
      n,
      f,
      replace_or_append-finds h o r qs c e,
      same_iff (type_code o') c,
      same_iff (type_code o) c,
      same_refl c,
    )
  ]
]

abbrev pub one_at_least : ℕ → ℕ
one_at_least zero = 1
one_at_least (suc n) = suc n

replace_or_append-counts :
    (h : Heap) (o : RuntimeObject) (r : Ref) (qs : List Ref) (c : ℕ)
    → h r ≡ some o
    → count_class h c (replace_or_append h o r qs)
      ≡ (if has_class c (some o) then one_at_least (count_class h c qs) else count_class h c qs)
unfolding replace_or_append count_class same_type
replace_or_append-counts h o r [] c e = rw e (ground arith)
replace_or_append-counts h o r (q ∷ qs) c e = elim (Option-cases (h q)) [
  | inl n ↦ ground (arith, n, replace_or_append-counts h o r qs c e)
  | inr (o', n) ↦ elim (Bool-cases (same (type_code o') (type_code o))) [
    | inl t ↦ ground (arith, n, e, t, same_iff (type_code o') (type_code o) t)
    | inr f ↦ ground (
      arith,
      n,
      f,
      replace_or_append-counts h o r qs c e,
      same_iff (type_code o') c,
      same_iff (type_code o) c,
      same_refl c,
    )
  ]
]

-- The slice has at most one object of each class.
abbrev pub IsDistinct : BackstageModel → Type 0
IsDistinct m = (c : ℕ) → count_class m.heap c m.runtime_objects ≤ 1

-- The slice of runtime objects is a map from classes to objects, and setRuntimeObject is its
-- insertion: afterwards the class of the given object has that object, and every other class has
-- the object that it had, or none. The address is that of the object.
pub set_runtime_object-finds :
    (m : BackstageModel) (r : Ref) (o : RuntimeObject) (c : ℕ)
    → m.heap r ≡ some o
    → find_class m.heap c (set_runtime_object r o m).runtime_objects
      ≡ (if has_class c (some o) then some r else find_class m.heap c m.runtime_objects)
unfolding set_runtime_object
set_runtime_object-finds m r o c e = replace_or_append-finds m.heap o r m.runtime_objects c e

-- setRuntimeObject keeps the slice free of two objects of one class.
pub set_runtime_object-IsDistinct :
    (m : BackstageModel) (r : Ref) (o : RuntimeObject)
    → m.heap r ≡ some o
    → IsDistinct m
    → IsDistinct (set_runtime_object r o m)
unfolding set_runtime_object
set_runtime_object-IsDistinct m r o e distinct c =
    ground (arith, replace_or_append-counts m.heap o r m.runtime_objects c e, distinct c)

-- The counts do not depend on the order.
count_class_of_perm :
    (h : Heap) (c : ℕ) {rs qs : List Ref} → Permᴰ rs qs → count_class h c rs ≡ count_class h c qs
unfolding count_class
count_class_of_perm h c nil = refl
count_class_of_perm h c (cons {b = b} {l₁ = l₁} e d) =
    ap (λ q. (if has_class c (h q) then 1 else 0) + count_class h c l₁) e
    ∙ ap (λ n. (if has_class c (h b) then 1 else 0) + n) (count_class_of_perm h c d)
count_class_of_perm h c (swap e₁ e₂) = rw (e₁, e₂) (omega arith)
count_class_of_perm h c (trans d₁ d₂) = count_class_of_perm h c d₁ ∙ count_class_of_perm h c d₂

pub count_class-perm :
    (h : Heap) (c : ℕ) (rs qs : List Ref) → Perm rs qs → count_class h c rs ≡ count_class h c qs
count_class-perm h c rs qs p = same_iff (count_class h c rs) (count_class h c qs) (
    ∥∥₁_elim p (λ x y. Bool-set _ _ x y)
      (λ d.
        subst (λ n. same (count_class h c rs) n ≡ true) (count_class_of_perm h c d)
          (same_refl (count_class h c rs))))
