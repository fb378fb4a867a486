-- ===== src/Model/Soundness/Workloads.antt =====
-- What is done to a complete workload does not panic and leaves it complete.
use janus_idp_operator.Prelude.{
  String, true, Option, List, ◌∷◌, ◌≡◌, inl, inr, Option-cases, List-cases, and_left, and_right,
  is_some, non_empty,
}
use janus_idp_operator.StringMap.{StringMap}
use janus_idp_operator.GoError.{Safe}
use janus_idp_operator.GoError.Safety.{Safe-bind, Safe-if}
use janus_idp_operator.Kube.{Container, Workload}
use janus_idp_operator.Platform.{Platform}
use janus_idp_operator.Utils.PodMutator.{ObjectKind, mount_files_from}
use janus_idp_operator.Model.Pods.{
  pod_of, change_container, mount_in_first, mount_in_first_init, add_envs_to_first, label_workload,
  backstage_image_env_var,
}
use janus_idp_operator.Model.DbStatefulSet
use janus_idp_operator.Model.DbStatefulSet.{local_db_image_env_var, set_image_of}
use janus_idp_operator.Model.Deployment
use janus_idp_operator.Model.Soundness.{is_complete, has_any}

abbrev pub IsComplete : Workload → Type 0
IsComplete w = is_complete w ≡ true

pub has_selector : (w : Workload) → IsComplete w → is_some w.selector ≡ true
has_selector w e = and_right (has_any w.template.spec.containers) (is_some w.selector) e

pub change_container-Safe :
    (f : Container → Container) (w : Workload)
    → IsComplete w
    → Safe IsComplete (change_container f w)
unfolding change_container
change_container-Safe f w e = elim (List-cases (pod_of w).containers) [
  | inl n ↦ cc (e, n)
  | inr (c, cs, n) ↦ rw n (has_selector w e)
]

pub mount_in_first-Safe :
    (p : Platform) (kind : ObjectKind) (name path file : String)
    (content : Option (StringMap String)) (w : Workload)
    → IsComplete w
    → Safe IsComplete (mount_in_first p kind name path file content (pod_of w).containers w)
unfolding mount_in_first
mount_in_first-Safe p kind name path file content w e = elim (List-cases (pod_of w).containers) [
  | inl n ↦ cc (e, n)
  | inr (c, cs, n) ↦ rw n (has_selector w e)
]

pub label_workload-Safe :
    (name value : String) (w : Workload)
    → IsComplete w
    → Safe IsComplete (label_workload name value w)
unfolding label_workload
label_workload-Safe name value w e = elim (Option-cases w.selector) [
  | inl n ↦ cc (has_selector w e, n)
  | inr (x, n) ↦ rw n (cc (and_left (has_any w.template.spec.containers) (is_some w.selector) e))
]

pub add_envs_to_first-Safe :
    (kind : ObjectKind) (name var : String) (w : Workload)
    → IsComplete w
    → Safe IsComplete (add_envs_to_first kind name var w)
unfolding add_envs_to_first
add_envs_to_first-Safe kind name var w e = change_container-Safe _ w e

-- Nothing is mounted where there is no init container.
pub mount_in_first_init-Safe :
    (p : Platform) (kind : ObjectKind) (name path file : String)
    (content : Option (StringMap String)) (w : Workload) (c : Container) (cs : List Container)
    → (pod_of w).init_containers ≡ c ∷ cs
    → IsComplete w
    → Safe IsComplete
        (mount_in_first_init p kind name path file content (pod_of w).init_containers w)
unfolding mount_in_first_init mount_files_from
mount_in_first_init-Safe p kind name path file content w c cs n e = rw n e

-- The images that the environment gives.
pub override_db_image-Safe :
    (p : Platform) (w : Workload)
    → IsComplete w
    → Safe IsComplete (DbStatefulSet.override_image p w)
unfolding DbStatefulSet.override_image
override_db_image-Safe p w e =
    Safe-if IsComplete (non_empty (p.getenv local_db_image_env_var)) _ _
      (λ _. change_container-Safe (set_image_of (p.getenv local_db_image_env_var)) w e) (λ _. e)

pub override_image-Safe :
    (p : Platform) (w : Workload) → IsComplete w → Safe IsComplete (Deployment.override_image p w)
unfolding Deployment.override_image
override_image-Safe p w e =
    Safe-if IsComplete (non_empty (p.getenv backstage_image_env_var)) _ _
      (λ _.
        Safe-bind IsComplete (change_container (set_image_of (p.getenv backstage_image_env_var)) w)
          _ (change_container-Safe (set_image_of (p.getenv backstage_image_env_var)) w e)
          λ w' e'. e')
      (λ _. e)
