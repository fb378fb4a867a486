-- ===== src/Controller/Apply.antt =====
-- applyObjects and patchObject of controllers/backstage_controller.go.
pub mod Metadata
pub mod Secrets
pub mod Written
pub mod Whole
pub mod Accepted
pub mod Bounds
use janus_idp_operator.Prelude.{
  String, Bool, true, false, not, Option, none, some, List, [], ◌∷◌, ◌==◌, ◌^◌, if◌then◌else◌,
}
use janus_idp_operator.Prelude.Counting.{length}
use janus_idp_operator.StringMap.{StringMap, insert, keys, get_or_empty}
use janus_idp_operator.GoError.{
  GoError, wrap, has_reason, not_found, already_exists, Outcome, ok, err, panic, Reply, answered,
  failed,
}
use janus_idp_operator.Kube.{
  ObjectMeta, KubeObject, config_map, secret, service, deployment, stateful_set, route, kind_of,
  meta_of, set_meta,
}
use janus_idp_operator.Platform.{Platform, RangeSite, labels, annotations}
use janus_idp_operator.Utils.{made}
use janus_idp_operator.Model.Objects.{RuntimeObject, db_secret, object, empty_object}
use janus_idp_operator.Controller.Exec.{Exec, pure, raise, crash, ◌>>=◌, ◌>>◌}
use janus_idp_operator.Controller.Requests.{
  Server, History, create, patch, send_get_object, send_write,
}

-- reflect.TypeOf(obj.Object()).String()
unfoldable pub obj_disp_name : KubeObject → String
obj_disp_name (config_map o) = "*v1.ConfigMap"
obj_disp_name (secret o) = "*v1.Secret"
obj_disp_name (service o) = "*v1.Service"
obj_disp_name (deployment o) = "*v1.Deployment"
obj_disp_name (stateful_set o) = "*v1.StatefulSet"
obj_disp_name (route o) = "*v1.Route"

-- The body of the loop over the base object's labels or annotations, over its keys in their order.
unfoldable pub restore_each : StringMap String → List String → StringMap String → StringMap String
restore_each base [] own = own
restore_each base (name ∷ names) own =
    restore_each base names
      (if get_or_empty name own == "" then insert name (get_or_empty name base) own else own)

module _ (p : Platform) where
  unfoldable pub restore :
      RangeSite
      → History
      → Option (StringMap String)
      → Option (StringMap String)
      → Option (StringMap String)
  unfolding restore_each
  restore site h none own = own
  restore site h (some base) own =
      some (restore_each base (p.range_order site (length h) (keys base)) (made own))

  -- The metadata of the object that is sent, from that of the base object.
  unfoldable pub patched_meta : History → (base own : ObjectMeta) → ObjectMeta
  unfolding restore
  patched_meta h base own = record own {
    labels = restore labels h base.labels own.labels;
    annotations = restore annotations h base.annotations own.annotations;
    resource_version = base.resource_version;
  }

  module _ (s : Server) where
    abbrev pub check : (GoError → GoError) → Option GoError → Exec History (Unit {0})
    check wrapped none = pure tt
    check wrapped (some e) = raise (wrapped e)

    unfoldable pub patch_object : (base own : KubeObject) → Exec History (Unit {0})
    unfolding patched_meta send_write obj_disp_name
    patch_object base own h =
        let own' = set_meta (patched_meta h (meta_of base) (meta_of own)) own in
        (send_write s (patch own' base)
            >>= check (wrap ("failed to patch object " ^ obj_disp_name own ^ ": ")))
          h

    abbrev pub rewrapped : (GoError → GoError) → Outcome (Unit {0}) → Exec History (Unit {0})
    rewrapped wrapped (ok a) = pure a
    rewrapped wrapped (err e) = raise (wrapped e)
    rewrapped wrapped panic = crash

    abbrev pub rewrap : (GoError → GoError) → Exec History (Unit {0}) → Exec History (Unit {0})
    rewrap wrapped m h = let (o, h') = m h in rewrapped wrapped o h'

    -- The error prints the object after patchObject has changed its metadata.
    unfoldable pub patch_existing : (base own : KubeObject) → Exec History (Unit {0})
    unfolding patch_object patched_meta
    patch_existing base own h =
        let own' = set_meta (patched_meta h (meta_of base) (meta_of own)) own in
        rewrap (wrap ("failed to patch object " ^ p.format_kube_object own' ^ ": "))
          (patch_object base own) h

    abbrev pub is_db_secret : RuntimeObject → Bool
    is_db_secret (db_secret b) = true
    is_db_secret _ = false

    abbrev pub after_create_secret :
        RuntimeObject → KubeObject → Option GoError → Exec History (Unit {0})
    after_create_secret o k none = pure tt
    after_create_secret o k (some e) =
        if not (has_reason already_exists e)
        then raise (wrap "failed to create secret: " e)
        else if is_db_secret o
        then pure tt
        else patch_existing (empty_object o) k

    -- Secrets are not read: the operator tries to create them.
    unfoldable pub apply_secret : RuntimeObject → KubeObject → Exec History (Unit {0})
    unfolding patch_existing send_write has_reason empty_object
    apply_secret o k = send_write s (create k) >>= after_create_secret o k

    abbrev pub after_get : KubeObject → Reply KubeObject → Exec History (Unit {0})
    after_get k (answered base) = patch_existing base k
    after_get k (failed e) =
        if not (has_reason not_found e)
        then raise (wrap "failed to get object: " e)
        else (send_write s (create k) >>= check (wrap "failed to create object "))

    unfoldable pub apply_other : KubeObject → Exec History (Unit {0})
    unfolding patch_existing send_write send_get_object has_reason
    apply_other k =
        send_get_object s (kind_of k)
          (record { name = (meta_of k).name; namespace = (meta_of k).namespace })
        >>= after_get k

    abbrev pub is_secret : KubeObject → Bool
    is_secret (secret o) = true
    is_secret _ = false

    abbrev pub apply_kube : RuntimeObject → KubeObject → Exec History (Unit {0})
    apply_kube o k = if is_secret k then apply_secret o k else apply_other k

    -- A nil object is a panic.
    abbrev pub apply_pointer : RuntimeObject → Option KubeObject → Exec History (Unit {0})
    apply_pointer o none = crash
    apply_pointer o (some k) = apply_kube o k

    unfoldable pub apply_object : RuntimeObject → Exec History (Unit {0})
    unfolding apply_secret apply_other object
    apply_object o = apply_pointer o (object o)

    unfoldable pub apply_objects : List RuntimeObject → Exec History (Unit {0})
    unfolding apply_object
    apply_objects [] = pure tt
    apply_objects (o ∷ os) = apply_object o >> apply_objects os
