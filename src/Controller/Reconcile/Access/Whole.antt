-- ===== src/Controller/Reconcile/Access/Whole.antt =====
-- A whole reconciliation makes granted requests only.
use janus_idp_operator.Prelude.{
  String, Bool, true, false, not, ◌&&◌, Option, none, some, List, ◌==◌, non_empty, refl,
}
use janus_idp_operator.GoError.{
  GoError, has_reason, not_found, Outcome, ok, err, panic, Reply, answered, failed,
}
use janus_idp_operator.Kube.{Kind}
use janus_idp_operator.Api.{Backstage, is_local_db_enabled, is_route_enabled}
use janus_idp_operator.Platform.{Platform}
use janus_idp_operator.Model.Objects.{RuntimeObject}
use janus_idp_operator.Model.State.{BackstageModel, ExternalConfig}
use janus_idp_operator.Model.Runtime.{init_objects}
use janus_idp_operator.Controller.Exec.{Exec, lift}
use janus_idp_operator.Controller.Exec.Keeps.{
  Keeps, Keeps-pure, Keeps-raise, Keeps-lift, Keeps-if, Keeps-bind,
}
use janus_idp_operator.Controller.Requests.{
  Server, History, NamespacedName, get_backstage, send_get_backstage,
}
use janus_idp_operator.Controller.Preprocess.{preprocess_spec}
use janus_idp_operator.Controller.Apply.{apply_objects}
use janus_idp_operator.Controller.Clean.{
  clean_objects, clean_local_db, clean_local_db_unless, clean_route_if, try_to_delete, unless_gone,
}
use janus_idp_operator.Controller.Reconcile.{
  Reconciler, Session, reconcile, reconcile_found, after_get_backstage, run_stages, begin,
  preprocess_stage, init_stage, read_stage, apply_stage, clean_stage, objects_at, stage, staged,
}
use janus_idp_operator.Controller.Reconcile.Access.{
  is_granted, Granted, Granted-snoc, send_write-Keeps,
}
use janus_idp_operator.Controller.Reconcile.Access.Preprocess.{preprocess-Keeps}
use janus_idp_operator.Controller.Reconcile.Access.Apply.{apply_objects-Keeps}

-- The methods of cleanObjects.
module _ (s : Server) where
  unless_gone-Keeps : (name : String) (e : Option GoError) → Keeps Granted (unless_gone s name e)
  unless_gone-Keeps name none = Keeps-pure tt
  unless_gone-Keeps name (some e) = Keeps-if _ _ _ (Keeps-raise _) (Keeps-pure tt)

  try_to_delete-Keeps : (k : Kind) (name ns : String) → Keeps Granted (try_to_delete s k name ns)
  unfolding try_to_delete is_granted
  try_to_delete-Keeps k name ns =
      Keeps-bind _ _ (send_write-Keeps s _ refl) λ e. unless_gone-Keeps name e

  clean_local_db_unless-Keeps :
      (enabled : Bool) (b : Backstage) → Keeps Granted (clean_local_db_unless s enabled b)
  unfolding clean_local_db
  clean_local_db_unless-Keeps true b = Keeps-pure tt
  clean_local_db_unless-Keeps false b =
      Keeps-bind _ _ (try_to_delete-Keeps _ _ _)
        λ _. Keeps-bind _ _ (try_to_delete-Keeps _ _ _) λ _. try_to_delete-Keeps _ _ _

  clean_route_if-Keeps : (gone : Bool) (b : Backstage) → Keeps Granted (clean_route_if s gone b)
  clean_route_if-Keeps true b = try_to_delete-Keeps _ _ _
  clean_route_if-Keeps false b = Keeps-pure tt

  clean_objects-Keeps :
      (is_openshift : Bool) (b : Backstage) → Keeps Granted (clean_objects s is_openshift b)
  unfolding clean_objects
  clean_objects-Keeps is_openshift b =
      Keeps-bind _ _ (clean_local_db_unless-Keeps (is_local_db_enabled b.spec) b)
        λ _. clean_route_if-Keeps (is_openshift && not (is_route_enabled b.spec)) b

abbrev KeepsGranted : {A : Type 0} → Exec Session A → Type 0
KeepsGranted m = Keeps (λ (t : Session). Granted t.1) m

staged-Keeps :
    {A : Type 0} (p : Platform) (msg : String) (o : Outcome A) (b : Backstage) (h : History)
    → Granted h
    → Granted (staged p msg o (b, h)).1.1
staged-Keeps p msg (ok a) b h hs = hs
staged-Keeps p msg (err e) b h hs = hs
staged-Keeps p msg panic b h hs = hs

stage-Keeps :
    {A : Type 0} (p : Platform) (msg : String) (m : Exec History A)
    → Keeps Granted m
    → KeepsGranted (stage p msg m)
stage-Keeps p msg m km = record {
  after = λ t hs. staged-Keeps p msg (m t.1).0 t.0 (m t.1).1 (km.after t.1 hs);
}

module _ (p : Platform) (s : Server) (r : Reconciler) where
  preprocess_stage-Keeps : (b : Backstage) → KeepsGranted (preprocess_stage p s r b)
  unfolding preprocess_stage preprocess_spec
  preprocess_stage-Keeps b =
      stage-Keeps p "failed to preprocess backstage spec" _
        (preprocess-Keeps p s b.meta.namespace b.spec)

  init_stage-Keeps :
      (b : Backstage) (external : ExternalConfig) → KeepsGranted (init_stage p s r b external)
  unfolding init_stage
  init_stage-Keeps b external =
      stage-Keeps p "failed to initialize backstage model"
        (lift (init_objects p b external r.owns_runtime r.is_openshift)) (Keeps-lift _)

  read_stage-Keeps : (m : BackstageModel) → KeepsGranted (read_stage p s r m)
  unfolding read_stage
  read_stage-Keeps m = Keeps-lift (objects_at m m.runtime_objects)

  apply_stage-Keeps : (objects : List RuntimeObject) → KeepsGranted (apply_stage p s r objects)
  unfolding apply_stage
  apply_stage-Keeps objects =
      stage-Keeps p "failed to apply backstage objects" (apply_objects p s objects)
        (apply_objects-Keeps p s Granted (Granted-snoc s) objects)

  clean_stage-Keeps : (b : Backstage) → KeepsGranted (clean_stage p s r b)
  unfolding clean_stage
  clean_stage-Keeps b =
      stage-Keeps p "failed to clean backstage objects " (clean_objects s r.is_openshift b)
        (clean_objects-Keeps s r.is_openshift b)

  run_stages-Keeps : (b : Backstage) → KeepsGranted (run_stages p s r b)
  unfolding run_stages
  run_stages-Keeps b = Keeps-bind _ _ (preprocess_stage-Keeps b) λ external.
      Keeps-bind _ _ (init_stage-Keeps b external) λ m.
        Keeps-bind _ _ (read_stage-Keeps m) λ objects.
          Keeps-bind _ _ (apply_stage-Keeps objects)
            λ _. Keeps-bind _ _ (clean_stage-Keeps b) λ _. record { after = λ t hs. hs }

  reconcile_found-Keeps : (b : Backstage) → Keeps Granted (reconcile_found p s r b)
  unfolding reconcile_found is_granted
  reconcile_found-Keeps b = record {
    after = λ h hs.
        (send_write-Keeps s _ refl).after _
          ((run_stages-Keeps (begin p b)).after (begin p b, h) hs);
  }

  after_get_backstage-Keeps :
      (reply : Reply Backstage) → Keeps Granted (after_get_backstage p s r reply)
  after_get_backstage-Keeps (answered b) = reconcile_found-Keeps b
  after_get_backstage-Keeps (failed e) =
      Keeps-if (has_reason not_found e) _ _ (Keeps-pure tt) (Keeps-raise _)

-- A reconciliation makes granted requests only, however it ends: in particular it never reads a
-- secret.
pub reconcile-Granted :
    (p : Platform) (s : Server) (r : Reconciler) (req : NamespacedName) (h : History)
    → Granted h
    → Granted (reconcile p s r req h).1
unfolding reconcile send_get_backstage is_granted
reconcile-Granted p s r req h hs =
    (Keeps-if (non_empty r.namespace && not (req.namespace == r.namespace)) _ _ (Keeps-pure tt) (
        Keeps-bind (after_get_backstage p s r) (send_get_backstage s req) asked
          (after_get_backstage-Keeps p s r))).after
      h hs
  where
    asked : Keeps Granted (send_get_backstage s req)
    asked = record { after = λ h hs. Granted-snoc s h (get_backstage req) refl hs }
