-- ===== src/Controller/Apply/Whole.antt =====
-- What applyObjects has done when it returns no error.
use janus_idp_operator.Prelude.{
  ◌≤◌, true, Option-cases, some, is_some, List, [], ◌∷◌, ◌≡◌, ap, subst, inl, inr, arith, All,
}
use janus_idp_operator.Prelude.Counting.{length, length-append}
use janus_idp_operator.GoError.{Outcome, ok, err, panic}
use janus_idp_operator.Kube.{KubeObject}
use janus_idp_operator.Platform.{Platform}
use janus_idp_operator.Model.Objects.{RuntimeObject, object}
use janus_idp_operator.Controller.Exec.{Exec, continue}
use janus_idp_operator.Controller.Requests.{Server, History}
use janus_idp_operator.Controller.Apply.{apply_objects, apply_object}
use janus_idp_operator.Controller.Reconcile.Access.Apply.{apply_objects-Keeps}
use janus_idp_operator.Controller.Apply.Written.{
  IsApplied, IsApplied-snoc, Leaves, apply_kube-Leaves,
}

module _ (p : Platform) (s : Server) where
  -- Every object of the list that is not nil has been applied.
  abbrev pub AreApplied : List RuntimeObject → (start now : History) → Type 0
  AreApplied os start now =
      All (λ o. (k : KubeObject) → object o ≡ some k → IsApplied p s o k start now) os

  Leaves-then :
      {P : History → Type 0} (Q : History → Type 0) (n : Exec History (Unit {0}))
      (o : Outcome (Unit {0})) (h : History)
      → Leaves p s P (o, h)
      → ((t : History) → P t → Leaves p s Q (n t))
      → Leaves p s Q (continue o (λ _. n) h)
  Leaves-then Q n (ok a) h holds k = k h holds
  Leaves-then Q n (err e) h holds k = holds
  Leaves-then Q n panic h holds k = holds

  Leaves-and :
      (P Q : History → Type 0) (o : Outcome (Unit {0})) (h : History)
      → P h
      → Leaves p s Q (o, h)
      → Leaves p s (λ t. P t × Q t) (o, h)
  Leaves-and P Q (ok a) h first second = (first, second)
  Leaves-and P Q (err e) h first second = second
  Leaves-and P Q panic h first second = second

  apply_object-Leaves :
      (o : RuntimeObject) (k : KubeObject) (start h : History)
      → object o ≡ some k
      → length start ≤ length h
      → Leaves p s (IsApplied p s o k start) (apply_object p s o h)
  unfolding apply_object
  apply_object-Leaves o k start h e since = rw e (apply_kube-Leaves p s o k start h since)

  IsApplied-since :
      (o : RuntimeObject) (k : KubeObject) (start now : History)
      → IsApplied p s o k start now
      → length start ≤ length now
  IsApplied-since o k start now a =
      omega
        (arith, a.since, ap (λ l. length l) a.history, length-append a.before (a.request ∷ a.later))

  -- An object that has been applied is still so after other objects were.
  apply_objects-keeps :
      (o : RuntimeObject) (k : KubeObject) (start t : History) (os : List RuntimeObject)
      → object o ≡ some k
      → IsApplied p s o k start t
      → (j : KubeObject) → object o ≡ some j
      → IsApplied p s o j start (apply_objects p s os t).1
  apply_objects-keeps o k start t os e a j e' =
      let same : k ≡ j = cc (e, e') in
      (apply_objects-Keeps p s (IsApplied p s o j start) (λ h r _. IsApplied-snoc p s o j start h r)
          os).after
        t (subst (λ x. IsApplied p s o x start t) same a)

apply_objects-Leaves_from :
    (p : Platform) (s : Server) (os : List RuntimeObject) (start h : History)
    → All (λ o. is_some (object o) ≡ true) os
    → length start ≤ length h
    → Leaves p s (AreApplied p s os start) (apply_objects p s os h)
unfolding apply_objects
apply_objects-Leaves_from p s [] start h live since = tt
apply_objects-Leaves_from p s (o ∷ os) start h (live, lives) since =
    elim (Option-cases (object o)) [
      | inl e ↦ cc (e, live)
      | inr (k, e) ↦
          Leaves-then p s _ (apply_objects p s os) (apply_object p s o h).0 _
            (apply_object-Leaves p s o k start h e since)
            λ t a.
              Leaves-and p s _ (AreApplied p s os start) (apply_objects p s os t).0 _
                (apply_objects-keeps p s o k start t os e a)
                (apply_objects-Leaves_from p s os start t lives (IsApplied-since p s o k start t a))
    ]

-- applyObjects on objects that are not nil does not panic. If it returns no error, then for each
-- object it has sent a request that creates it, or that patches the
-- object of its name and namespace with it, and the server accepted that request; only for the
-- database's secret the request may have been refused, because there is one already.
pub apply_objects-Leaves :
    (p : Platform) (s : Server) (os : List RuntimeObject) (h : History)
    → All (λ o. is_some (object o) ≡ true) os
    → Leaves p s (AreApplied p s os h) (apply_objects p s os h)
apply_objects-Leaves p s os h live = apply_objects-Leaves_from p s os h h live (omega arith)
