-- ===== src/Controller/Clean/DefaultRoute.antt =====
-- A default route where the spec enables none.
use mathlib.Core.List.{Mem, mem-cons_self, mem-cons_of_mem, mem-append_right}
use janus_idp_operator.Prelude.{
  true, false, some, ◌≡◌, refl, Bool-cases, inl, inr, subst, sym, same_refl, ◌∙◌,
}
use janus_idp_operator.GoError.{ok}
use janus_idp_operator.Kube.{Route, route_kind}
use janus_idp_operator.Api.{Backstage, is_local_db_enabled, is_route_enabled}
use janus_idp_operator.Model.Objects.{RuntimeObject, backstage_route, type_code}
use janus_idp_operator.Model.State.{BackstageModel, Ref, load, store, set_runtime_object}
use janus_idp_operator.Model.State.Classes.{find_class, set_runtime_object-finds}
use janus_idp_operator.Model.BackstageRoute
use janus_idp_operator.Model.BackstageRoute.{route_name}
use janus_idp_operator.Model.BackstageRoute.FromSpec.{load-store}
use janus_idp_operator.Controller.Requests.{Server, History, Request, delete}
use janus_idp_operator.Controller.Requests.Sends.{Sent, history-Sent}
use janus_idp_operator.Controller.Clean.{clean_objects}
use janus_idp_operator.Controller.Clean.Deletes.{unwanted, clean_objects-Sent}

abbrev pub deletion : Backstage → Request
deletion b =
    delete route_kind (record { name = route_name b.meta.name; namespace = b.meta.namespace })

deletion-unwanted :
    (b : Backstage) → is_route_enabled b.spec ≡ false → Mem (deletion b) (unwanted true b)
unfolding unwanted route_name
deletion-unwanted b off = elim (Bool-cases (is_local_db_enabled b.spec)) [
  | inl e ↦ rw (e, off) mem-cons_self
  | inr e ↦ rw (e, off) (mem-cons_of_mem _ (mem-cons_of_mem _ (mem-cons_of_mem _ mem-cons_self)))
]

deletion-sent :
    (s : Server) (b : Backstage) (h : History)
    → is_route_enabled b.spec ≡ false
    → (clean_objects s true b h).0 ≡ ok tt
    → Mem (deletion b) (clean_objects s true b h).1
deletion-sent s b h off done =
    subst (Mem (deletion b))
      (sym (
        history-Sent (unwanted true b) h (clean_objects s true b h).1 (
          subst (λ o. Sent (unwanted true b) h (o, (clean_objects s true b h).1)) done
            (clean_objects-Sent s true b h))))
      (mem-append_right h (deletion-unwanted b off))

found :
    (r : Ref) (o : RuntimeObject) (m : BackstageModel)
    → let stored = record (store r o m) { route_ref = some r } in
      find_class
        (set_runtime_object r o stored).heap
        (type_code o)
        (set_runtime_object r o stored).runtime_objects
      ≡ some r
unfolding set_runtime_object
found r o m =
    set_runtime_object-finds (record (store r o m) { route_ref = some r }) r o (type_code o)
      (rw (same_refl r) refl)
    ∙ rw (same_refl (type_code o)) refl

-- On OpenShift, if the default configuration has a route and the spec enables none, addToModel puts
-- the default route into the model, as the runtime object of its class; setMetaInfo gives it the
-- name that RouteName says; and the route of that name is deleted by each cleanObjects that returns
-- no error.
pub add_to_model-unwanted :
    (s : Server) (x : Route) (r : Ref) (b : Backstage) (m : BackstageModel) (h : History)
    → is_route_enabled b.spec ≡ false
    → m.is_openshift ≡ true
    → (clean_objects s true b h).0 ≡ ok tt
    → ((m' : BackstageModel) × (BackstageRoute.add_to_model (some x) r b.spec m ≡ ok (true, m'))
        × (load m' r ≡ ok (backstage_route (some x)))
        × (find_class m'.heap (type_code (backstage_route (some x))) m'.runtime_objects ≡ some r))
      × ((x' : Route) × (BackstageRoute.set_meta_info (some x) b.meta.name ≡ ok (some x'))
          × (x'.meta.name ≡ route_name b.meta.name))
      × Mem (deletion b) (clean_objects s true b h).1
unfolding BackstageRoute.add_to_model BackstageRoute.set_meta_info
add_to_model-unwanted s x r b m h off openshift done =
    let o = backstage_route (some x) in
    let stored = record (store r o m) { route_ref = some r } in
    (
      (set_runtime_object r o stored, rw (off, openshift) refl, load-store r o o m, found r o m),
      (_, refl, refl),
      deletion-sent s b h off done,
    )
