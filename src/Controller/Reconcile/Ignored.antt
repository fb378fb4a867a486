-- ===== src/Controller/Reconcile/Ignored.antt =====
-- Requests that end a reconciliation at once.
use mathlib.Core.List.{append-nil}
use janus_idp_operator.Prelude.{true, List, [], ◌∷◌, ◌++◌, ◌≡◌, ◌≢◌, ◌⊎◌, inl, inr, arith, eq_iff}
use janus_idp_operator.GoError.{GoError, has_reason, not_found, ok, failed}
use janus_idp_operator.Platform.{Platform}
use janus_idp_operator.Controller.Requests.{
  Server, History, Request, NamespacedName, get_backstage, send_get_backstage,
}
use janus_idp_operator.Controller.Reconcile.{Reconciler, reconcile}

-- The reconciler is bound to a namespace, and the resource is in another one.
abbrev pub IsForeign : Reconciler → NamespacedName → Type 0
IsForeign r req = (r.namespace ≢ "") × (req.namespace ≢ r.namespace)

-- The resource is in the reconciler's scope, and gone from the cluster.
abbrev pub IsGone : Server → Reconciler → NamespacedName → History → Type 0
IsGone s r req h =
    (e : GoError) × ((r.namespace ≡ "") ⊎ (req.namespace ≡ r.namespace))
    × (s.on_get_backstage h req ≡ failed e)
    × (has_reason not_found e ≡ true)

-- The requests that it takes to see that.
abbrev pub asked :
    (s : Server) (r : Reconciler) (req : NamespacedName) (h : History)
    → IsForeign r req ⊎ IsGone s r req h
    → List Request
asked s r req h (inl foreign) = []
asked s r req h (inr gone) = get_backstage req ∷ []

-- A reconciler that is bound to a namespace ends without an error and without any request for a
-- resource of another namespace; and for a resource that is gone a reconciler ends without an error
-- after the one request that read it, so that nothing is written.
pub reconcile-ignores :
    (p : Platform) (s : Server) (r : Reconciler) (req : NamespacedName) (h : History)
    (reason : IsForeign r req ⊎ IsGone s r req h)
    → reconcile p s r req h ≡ (ok tt, h ++ asked s r req h reason)
unfolding reconcile send_get_backstage
reconcile-ignores p s r req h (inl (bound, other)) =
    rw append-nil (ground (arith, eq_iff r.namespace "", eq_iff req.namespace r.namespace))
reconcile-ignores p s r req h (inr (e, own, gone, missing)) =
    ground (arith, eq_iff r.namespace "", eq_iff req.namespace r.namespace)
