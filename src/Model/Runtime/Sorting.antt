-- ===== src/Model/Runtime/Sorting.antt =====
-- The comparison that sorts the runtime objects.
use janus_idp_operator.Prelude.{
  Bool, true, false, not, ◌&&◌, ◌||◌, List, [], ◌∷◌, ◌++◌, ◌≡◌, arith, if◌then◌else◌,
}
use janus_idp_operator.Model.State.{BackstageModel, Ref}
use janus_idp_operator.Model.Runtime.{less, is_stateful_set, is_deployment}

-- sort.SliceIsSorted: no element is less than the one before it.
unfoldable pub slice_is_sorted : (Ref → Ref → Bool) → List Ref → Bool
slice_is_sorted lt [] = true
slice_is_sorted lt (a ∷ []) = true
slice_is_sorted lt (a ∷ b ∷ rs) = not (lt b a) && slice_is_sorted lt (b ∷ rs)

-- Neither the stateful set of the database nor the deployment.
abbrev pub is_ordinary : BackstageModel → Ref → Bool
is_ordinary m r = not (is_stateful_set (m.heap r) || is_deployment (m.heap r))

not-slice_is_sorted_of_lt :
    (lt : Ref → Ref → Bool) (xs zs : List Ref) (a b : Ref)
    → lt b a ≡ true
    → slice_is_sorted lt (xs ++ a ∷ b ∷ zs) ≡ false
unfolding slice_is_sorted
not-slice_is_sorted_of_lt lt [] zs a b h = ground arith
not-slice_is_sorted_of_lt lt (x ∷ []) zs a b h =
    ground (arith, not-slice_is_sorted_of_lt lt [] zs a b h)
not-slice_is_sorted_of_lt lt (x ∷ y ∷ xs) zs a b h =
    ground (arith, not-slice_is_sorted_of_lt lt (y ∷ xs) zs a b h)

less_ordinary :
    (m : BackstageModel) (a b : Ref)
    → is_ordinary m a ≡ true
    → is_ordinary m b ≡ true
    → less m b a ≡ true
unfolding less
less_ordinary m a b ha hb =
    tests (is_stateful_set (m.heap a)) (is_deployment (m.heap a)) (is_stateful_set (m.heap b))
      (is_deployment (m.heap b)) ha hb
  where
    tests :
        (x y z w : Bool)
        → not (x || y) ≡ true
        → not (z || w) ≡ true
        → (if z || y then false else true) ≡ true
    tests x y z w h k = ground arith

-- No list with two ordinary objects next to one another is sorted by `less`, in either order of the
-- two: each is less than the other, so `less` is no order, which sort.Slice asks for.
pub not-slice_is_sorted :
    (m : BackstageModel) (xs zs : List Ref) (a b : Ref)
    → is_ordinary m a ≡ true
    → is_ordinary m b ≡ true
    → slice_is_sorted (less m) (xs ++ a ∷ b ∷ zs) ≡ false
not-slice_is_sorted m xs zs a b ha hb =
    not-slice_is_sorted_of_lt (less m) xs zs a b (less_ordinary m a b ha hb)
