-- ===== src/Controller/Reconcile/Access/Apply.antt =====
-- applyObjects makes granted requests only: it keeps every invariant of the history that granted
-- requests keep.
use janus_idp_operator.Prelude.{
  Bool, true, false, not, Option, none, some, List, [], ◌∷◌, ◌++◌, ◌^◌, ◌≡◌, refl, if◌then◌else◌,
}
use janus_idp_operator.GoError.{
  GoError, wrap, has_reason, already_exists, not_found, Outcome, ok, err, panic, Reply, answered,
  failed,
}
use janus_idp_operator.Kube.{
  Kind, KubeObject, config_map, secret, service, deployment, stateful_set, route, kind_of,
}
use janus_idp_operator.Platform.{Platform}
use janus_idp_operator.Model.Objects.{RuntimeObject, object}
use janus_idp_operator.Controller.Exec.Keeps.{
  Keeps, Keeps-pure, Keeps-raise, Keeps-crash, Keeps-if, Keeps-bind,
}
use janus_idp_operator.Controller.Requests.{
  Server, History, Request, NamespacedName, get_object, send_get_object, send_write,
}
use janus_idp_operator.Controller.Apply.{
  apply_objects, apply_object, apply_kube, apply_pointer, apply_secret, apply_other, patch_existing,
  patch_object, check, rewrapped, after_create_secret, after_get, is_secret, is_db_secret,
  obj_disp_name,
}
use janus_idp_operator.Controller.Reconcile.Access.{is_granted}

-- The methods of applyObjects.
module _ (p : Platform) (s : Server) (Inv : History → Type 0)
    (grows : (h : History) (r : Request) → is_granted r ≡ true → Inv h → Inv (h ++ r ∷ [])) where
  get_object-Keeps :
      (k : Kind) (n : NamespacedName)
      → is_granted (get_object k n) ≡ true
      → Keeps Inv (send_get_object s k n)
  unfolding send_get_object
  get_object-Keeps k n g = record { after = λ h hs. grows h (get_object k n) g hs }

  write-Keeps : (r : Request) → is_granted r ≡ true → Keeps Inv (send_write s r)
  unfolding send_write
  write-Keeps r g = record { after = λ h hs. grows h r g hs }

  check-Keeps : (wrapped : GoError → GoError) (e : Option GoError) → Keeps Inv (check p s wrapped e)
  check-Keeps wrapped none = Keeps-pure tt
  check-Keeps wrapped (some e) = Keeps-raise _

  patch_object-Keeps : (base own : KubeObject) → Keeps Inv (patch_object p s base own)
  unfolding patch_object is_granted
  patch_object-Keeps base own = record {
    after = λ h hs.
        (Keeps-bind _ _ (write-Keeps _ refl)
            λ e. check-Keeps (wrap ("failed to patch object " ^ obj_disp_name own ^ ": ")) e).after
          h hs;
  }

  rewrapped-Keeps :
      (wrapped : GoError → GoError) (o : Outcome (Unit {0})) → Keeps Inv (rewrapped p s wrapped o)
  rewrapped-Keeps wrapped (ok a) = Keeps-pure a
  rewrapped-Keeps wrapped (err e) = Keeps-raise _
  rewrapped-Keeps wrapped panic = Keeps-crash

  patch_existing-Keeps : (base own : KubeObject) → Keeps Inv (patch_existing p s base own)
  unfolding patch_existing
  patch_existing-Keeps base own = record {
    after = λ h hs. (rewrapped-Keeps _ _).after _ ((patch_object-Keeps base own).after h hs);
  }

  after_create_secret-Keeps :
      (o : RuntimeObject) (k : KubeObject) (e : Option GoError)
      → Keeps Inv (after_create_secret p s o k e)
  after_create_secret-Keeps o k none = Keeps-pure tt
  after_create_secret-Keeps o k (some e) =
      Keeps-if (not (has_reason already_exists e)) _ _ (Keeps-raise _)
        (Keeps-if (is_db_secret p s o) _ _ (Keeps-pure tt) (patch_existing-Keeps _ k))

  after_get-Keeps : (k : KubeObject) (r : Reply KubeObject) → Keeps Inv (after_get p s k r)
  unfolding is_granted
  after_get-Keeps k (answered base) = patch_existing-Keeps base k
  after_get-Keeps k (failed e) =
      Keeps-if (not (has_reason not_found e)) _ _ (Keeps-raise _)
        (Keeps-bind _ _ (write-Keeps _ refl) λ e'. check-Keeps _ e')

  -- An object that is not a secret may be read.
  get-granted :
      (k : KubeObject) (n : NamespacedName)
      → is_secret p s k ≡ false
      → is_granted (get_object (kind_of k) n) ≡ true
  unfolding is_granted
  get-granted (secret o) n e = cc
  get-granted (config_map o) n e = refl
  get-granted (service o) n e = refl
  get-granted (deployment o) n e = refl
  get-granted (stateful_set o) n e = refl
  get-granted (route o) n e = refl

  apply_kube-Keeps : (o : RuntimeObject) (k : KubeObject) → Keeps Inv (apply_kube p s o k)
  unfolding apply_secret apply_other is_granted
  apply_kube-Keeps o k = go (is_secret p s k) refl
    where
      go :
          (b : Bool)
          → is_secret p s k ≡ b
          → Keeps Inv (if b then apply_secret p s o k else apply_other p s k)
      go true e = Keeps-bind _ _ (write-Keeps _ refl) λ e'. after_create_secret-Keeps o k e'
      go false e =
          Keeps-bind _ _ (get_object-Keeps _ _ (get-granted k _ e)) λ r. after_get-Keeps k r

  apply_pointer-Keeps :
      (o : RuntimeObject) (k : Option KubeObject) → Keeps Inv (apply_pointer p s o k)
  apply_pointer-Keeps o none = Keeps-crash
  apply_pointer-Keeps o (some k) = apply_kube-Keeps o k

  pub apply_object-Keeps : (o : RuntimeObject) → Keeps Inv (apply_object p s o)
  unfolding apply_object
  apply_object-Keeps o = apply_pointer-Keeps o (object o)

  pub apply_objects-Keeps : (os : List RuntimeObject) → Keeps Inv (apply_objects p s os)
  unfolding apply_objects
  apply_objects-Keeps [] = Keeps-pure tt
  apply_objects-Keeps (o ∷ os) = Keeps-bind _ _ (apply_object-Keeps o) λ _. apply_objects-Keeps os
