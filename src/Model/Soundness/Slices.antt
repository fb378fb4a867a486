-- ===== src/Model/Soundness/Slices.antt =====
-- The slice of a sound model is no longer than there are classes.
use Prim.Native.Nat.{compare, Ordering}
use janus_idp_operator.Prelude.{
  same, if◌then◌else◌, false, Bool, ◌<◌, ℕ, zero, suc, refl, ◌+◌, ◌≤◌, some, true, List, [], ◌∷◌,
  ◌≡◌, All, arith, Option-cases, inl, inr,
}
use janus_idp_operator.Prelude.Counting.{length}
use janus_idp_operator.Model.Objects.{RuntimeObject, type_code}
use janus_idp_operator.Model.State.{Heap, Ref, BackstageModel}
use janus_idp_operator.Model.State.Classes.{count_class}
use janus_idp_operator.Model.Soundness.{IsSound, is_live}

abbrev ltb : ℕ → ℕ → Bool
ltb a b = elim (compare a b) [ Ordering.lt ↦ true | _ ↦ false ]

-- The counts of the classes with a code below `n`.
abbrev count_below : Heap → List Ref → ℕ → ℕ
count_below h rs zero = 0
count_below h rs (suc n) = count_class h n rs + count_below h rs n

-- An object counts for the class of its code, and for no other.
abbrev counted : ℕ → ℕ → ℕ
counted code zero = 0
counted code (suc n) = (if same code n then 1 else 0) + counted code n

counted_once : (code n : ℕ) → counted code n ≡ (if ltb code n then 1 else 0)
counted_once code zero = ground arith
counted_once code (suc n) = ground (arith, counted_once code n)

count_below-cons :
    (h : Heap) (r : Ref) (rs : List Ref) (o : RuntimeObject) (n : ℕ)
    → h r ≡ some o
    → count_below h (r ∷ rs) n ≡ counted (type_code o) n + count_below h rs n
unfolding count_class
count_below-cons h r rs o zero e = omega arith
count_below-cons h r rs o (suc n) e = rw e (omega (arith, count_below-cons h r rs o n e))

type_code_bounded : (o : RuntimeObject) → type_code o < 12
unfolding type_code
type_code_bounded o = ground arith

length_of_live :
    (h : Heap) (rs : List Ref)
    → All (λ r. is_live (h r) ≡ true) rs
    → length rs ≡ count_below h rs 12
unfolding count_class
length_of_live h [] live = refl
length_of_live h (r ∷ rs) (l, live) = elim (Option-cases (h r)) [
  | inl n ↦ cc (l, n)
  | inr (o, n) ↦ omega (
    arith,
    length_of_live h rs live,
    count_below-cons h r rs o 12 n,
    counted_once (type_code o) 12,
    below (type_code o) (type_code_bounded o),
  )
]
  where
    below : (code : ℕ) → code < 12 → ◌≡◌ {A = ℕ} (if ltb code 12 then 1 else 0) 1
    below code e = ground arith

count_below_one :
    (h : Heap) (rs : List Ref) (n : ℕ) → ((c : ℕ) → count_class h c rs ≤ 1) → count_below h rs n ≤ n
count_below_one h rs zero one = omega arith
count_below_one h rs (suc n) one = omega (arith, one n, count_below_one h rs n one)

-- A sound model has at most twelve runtime objects.
pub length-IsSound : (m : BackstageModel) → IsSound m → length m.runtime_objects ≤ 12
length-IsSound m sound = omega (
  arith,
  length_of_live m.heap m.runtime_objects sound.objects,
  count_below_one m.heap m.runtime_objects 12 sound.distinct,
)
