-- ===== src/Controller/Reconcile/Slices.antt =====
-- The objects that a model's slice points to.
use janus_idp_operator.Model.Soundness.{is_plain, is_db_object}
use janus_idp_operator.Model.Soundness.Cells.{load-some}
use janus_idp_operator.Prelude.{
  false, Option-cases, inl, inr, arith, some, true, List, [], ◌∷◌, ◌≡◌, All,
}
use janus_idp_operator.GoError.{OnOk, ◌>>=◌ as and_then, Outcome, ok, err, panic}
use janus_idp_operator.Model.Objects.{RuntimeObject}
use janus_idp_operator.Model.State.{Ref, BackstageModel}
use janus_idp_operator.Controller.Reconcile.{objects_at}

-- A slice without database objects.
pub objects_at-plain :
    (m : BackstageModel) (rs : List Ref)
    → All (λ r. is_plain (m.heap r) ≡ true) rs
    → OnOk (All (λ o. is_db_object o ≡ false)) (objects_at m rs)
unfolding objects_at
objects_at-plain m [] plain = tt
objects_at-plain m (r ∷ rs) (e, plain) =
    let rest = objects_at-plain m rs plain in
    elim (Option-cases (m.heap r)) [
      | inl n ↦ cc (e, n)
      | inr (o, n) ↦
          let other : is_plain (some o) ≡ true = cc (e, n) in
          rw (load-some m r o n) (with_first o (objects_at m rs) (ground (arith, other)) rest)
    ]
  where
    with_first :
        (o : RuntimeObject) (x : Outcome (List RuntimeObject))
        → is_db_object o ≡ false
        → OnOk (All (λ o. is_db_object o ≡ false)) x
        → OnOk (All (λ o. is_db_object o ≡ false)) (and_then x (λ os. ok (o ∷ os)))
    with_first o (ok os) e rest = (e, rest)
    with_first o (err x) e rest = tt
    with_first o panic e rest = rest
