-- ===== src/Controller/Apply/Accepted.antt =====
-- applyObjects on a cluster that accepts what it is sent.
use janus_idp_operator.Prelude.{
  true, none, is_some, List, [], ◌∷◌, ◌++◌, ◌≡◌, refl, Bool-cases, Option-cases, inl, inr, All,
}
use janus_idp_operator.GoError.{Any, GoError, has_reason, not_found, Gives, answered, failed, Reply}
use janus_idp_operator.Kube.{Kind, KubeObject, kind_of, meta_of}
use janus_idp_operator.Platform.{Platform}
use janus_idp_operator.Model.Objects.{RuntimeObject, object}
use janus_idp_operator.Controller.Exec.Returns.{Gives-continue}
use janus_idp_operator.Controller.Requests.{
  Server, History, Request, NamespacedName, get_object, send_write, send_get_object,
}
use janus_idp_operator.Controller.Apply.{
  apply_objects, apply_object, apply_secret, apply_other, patch_existing, patch_object, apply_kube,
  after_get, is_secret,
}

-- The API server accepts every write, and reads fail only for an object that is not there.
pub record Accepts (s : Server) : Type 0 where
  pub writes : (h : History) (r : Request) → s.on_write h r ≡ none
  pub reads :
      (h : History) (k : Kind) (n : NamespacedName) (e : GoError)
      → s.on_get_object h k n ≡ failed e
      → has_reason not_found e ≡ true

module _ (p : Platform) (s : Server) (accepts : Accepts s) where
  patch_existing-ok :
      (base k : KubeObject) (h : History) → Gives Any (patch_existing p s base k h).0
  unfolding patch_existing patch_object send_write
  patch_existing-ok base k h = rw accepts.writes tt

  apply_secret-ok :
      (o : RuntimeObject) (k : KubeObject) (h : History) → Gives Any (apply_secret p s o k h).0
  unfolding apply_secret send_write
  apply_secret-ok o k h = rw accepts.writes tt

  after_get-ok :
      (k : KubeObject) (r : Reply KubeObject) (h : History)
      → ((e : GoError) → r ≡ failed e → has_reason not_found e ≡ true)
      → Gives Any (after_get p s k r h).0
  unfolding send_write
  after_get-ok k (answered base) h gone = patch_existing-ok base k h
  after_get-ok k (failed e) h gone = rw (gone e refl, accepts.writes) tt

  apply_other-ok : (k : KubeObject) (h : History) → Gives Any (apply_other p s k h).0
  unfolding apply_other send_get_object
  apply_other-ok k h =
      let n : NamespacedName = record {
        name = (meta_of k).name;
        namespace = (meta_of k).namespace;
      } in
      after_get-ok k (s.on_get_object h (kind_of k) n) (h ++ get_object (kind_of k) n ∷ [])
        (accepts.reads h (kind_of k) n)

  apply_kube-ok :
      (o : RuntimeObject) (k : KubeObject) (h : History) → Gives Any (apply_kube p s o k h).0
  apply_kube-ok o k h = elim (Bool-cases (is_secret p s k)) [
    | inl e ↦ rw e (apply_secret-ok o k h)
    | inr e ↦ rw e (apply_other-ok k h)
  ]

  apply_object-ok :
      (o : RuntimeObject) (h : History)
      → is_some (object o) ≡ true
      → Gives Any (apply_object p s o h).0
  unfolding apply_object
  apply_object-ok o h live = elim (Option-cases (object o)) [
    | inl e ↦ cc (e, live)
    | inr (k, e) ↦ rw e (apply_kube-ok o k h)
  ]

  pub apply_objects-ok :
      (os : List RuntimeObject) (h : History)
      → All (λ o. is_some (object o) ≡ true) os
      → Gives Any (apply_objects p s os h).0
  unfolding apply_objects
  apply_objects-ok [] h live = tt
  apply_objects-ok (o ∷ os) h (live, lives) =
      Gives-continue Any (apply_object p s o h).0 _ _ (apply_object-ok o h live)
        λ _ _. apply_objects-ok os (apply_object p s o h).1 lives
