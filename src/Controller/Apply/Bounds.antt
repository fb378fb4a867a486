-- ===== src/Controller/Apply/Bounds.antt =====
-- How many requests the writing of the objects takes.
use janus_idp_operator.Prelude.{◌+◌, ◌*◌, ◌^◌, not, Option, none, some, List, [], ◌∷◌, arith}
use janus_idp_operator.Prelude.Counting.{length}
use janus_idp_operator.GoError.{
  GoError, wrap, has_reason, not_found, already_exists, Outcome, ok, err, panic, Reply, answered,
  failed,
}
use janus_idp_operator.Kube.{KubeObject}
use janus_idp_operator.Platform.{Platform}
use janus_idp_operator.Model.Objects.{RuntimeObject, object, empty_object}
use janus_idp_operator.Controller.Exec.Costs.{
  Costs, Costs-lift, Costs-pure, Costs-raise, Costs-more, Costs-if, Costs-bind,
}
use janus_idp_operator.Controller.Requests.{Server, create}
use janus_idp_operator.Controller.Requests.Bounds.{sent, send_get_object-Costs, send_write-Costs}
use janus_idp_operator.Controller.Apply.{
  apply_objects, apply_object, apply_kube, apply_pointer, apply_secret, apply_other, patch_existing,
  patch_object, check, rewrapped, after_create_secret, after_get, is_secret, is_db_secret,
  obj_disp_name,
}

module _ (p : Platform) (s : Server) where
  check-Costs :
      (wrapped : GoError → GoError) (e : Option GoError) → Costs sent 0 (check p s wrapped e)
  check-Costs wrapped none = Costs-pure tt
  check-Costs wrapped (some e) = Costs-raise _

  rewrapped-Costs :
      (wrapped : GoError → GoError) (o : Outcome (Unit {0}))
      → Costs sent 0 (rewrapped p s wrapped o)
  rewrapped-Costs wrapped (ok a) = Costs-pure tt
  rewrapped-Costs wrapped (err e) = Costs-raise _
  rewrapped-Costs wrapped panic = Costs-lift panic

  patch_object-Costs : (base own : KubeObject) → Costs sent 1 (patch_object p s base own)
  unfolding patch_object
  patch_object-Costs base own = record {
    spends = λ h.
        (Costs-bind 1 0 _ _ (send_write-Costs s _)
            λ e. check-Costs (wrap ("failed to patch object " ^ obj_disp_name own ^ ": ")) e).spends
          h;
  }

  patch_existing-Costs : (base own : KubeObject) → Costs sent 1 (patch_existing p s base own)
  unfolding patch_existing
  patch_existing-Costs base own = record {
    spends = λ h.
        let (o, h') = patch_object p s base own h in
        omega (arith, (patch_object-Costs base own).spends h, (rewrapped-Costs _ o).spends h');
  }

  after_create_secret-Costs :
      (o : RuntimeObject) (k : KubeObject) (e : Option GoError)
      → Costs sent 1 (after_create_secret p s o k e)
  after_create_secret-Costs o k none = Costs-more 0 1 _ (omega arith) (Costs-pure tt)
  after_create_secret-Costs o k (some e) =
      Costs-if 1 (not (has_reason already_exists e)) _ _
        (Costs-more 0 1 _ (omega arith) (Costs-raise _))
        (Costs-if 1 (is_db_secret p s o) _ _ (Costs-more 0 1 _ (omega arith) (Costs-pure tt))
          (patch_existing-Costs (empty_object o) k))

  after_get-Costs :
      (k : KubeObject) (reply : Reply KubeObject) → Costs sent 1 (after_get p s k reply)
  after_get-Costs k (answered base) = patch_existing-Costs base k
  after_get-Costs k (failed e) =
      Costs-if 1 (not (has_reason not_found e)) _ _ (Costs-more 0 1 _ (omega arith) (Costs-raise _))
        (Costs-bind 1 0 _ _ (send_write-Costs s (create k)) λ e. check-Costs _ e)

  apply_kube-Costs : (o : RuntimeObject) (k : KubeObject) → Costs sent 2 (apply_kube p s o k)
  unfolding apply_secret apply_other
  apply_kube-Costs o k =
      Costs-if 2 (is_secret p s k) _ _
        (Costs-bind 1 1 _ _ (send_write-Costs s (create k)) λ e. after_create_secret-Costs o k e)
        (Costs-bind 1 1 _ _ (send_get_object-Costs s _ _) λ reply. after_get-Costs k reply)

  apply_pointer-Costs :
      (o : RuntimeObject) (k : Option KubeObject) → Costs sent 2 (apply_pointer p s o k)
  apply_pointer-Costs o none = Costs-more 0 2 _ (omega arith) (Costs-lift panic)
  apply_pointer-Costs o (some k) = apply_kube-Costs o k

  apply_object-Costs : (o : RuntimeObject) → Costs sent 2 (apply_object p s o)
  unfolding apply_object
  apply_object-Costs o = apply_pointer-Costs o (object o)

  -- applyObjects sends at most two requests for an object.
  pub apply_objects-Costs :
      (os : List RuntimeObject) → Costs sent (2 * length os) (apply_objects p s os)
  unfolding apply_objects
  apply_objects-Costs [] = Costs-more 0 _ _ (omega arith) (Costs-pure tt)
  apply_objects-Costs (o ∷ os) =
      Costs-more (2 + 2 * length os) _ _ (omega arith)
        (Costs-bind 2 (2 * length os) _ _ (apply_object-Costs o) λ _. apply_objects-Costs os)
