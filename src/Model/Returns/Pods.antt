-- ===== src/Model/Returns/Pods.antt =====
-- What is done to a workload returns no error and leaves its init containers their names.
use janus_idp_operator.GoError.{Any}
use janus_idp_operator.Prelude.{
  String, true, Option, none, some, List, [], ◌∷◌, ◌≡◌, refl, is_some, map, List-cases,
  Option-cases, inl, inr, arith, ◌∙◌,
}
use janus_idp_operator.StringMap.{StringMap, keys}
use janus_idp_operator.Prelude.Counting.{length}
use janus_idp_operator.Utils.{generate_volume_name_from_cm_or_secret}
use janus_idp_operator.Kube.{Container, PodSpec, Workload}
use janus_idp_operator.Platform.{Platform, mounts}
use janus_idp_operator.Utils.PodMutator.{ObjectKind, mount_files_from, mount_each}
use janus_idp_operator.Model.Pods.{
  pod_of, change_container, mount_in_first, mount_in_first_init, add_envs_to_first, label_workload,
}
use janus_idp_operator.Model.DynamicPlugins.{dynamic_plugins_init_container}
use janus_idp_operator.GoError.Errless.{Errless}
use janus_idp_operator.Model.Returns.{HasInstaller}

pub change_container-Errless :
    (f : Container → Container) (w : Workload)
    → HasInstaller w
    → Errless HasInstaller (change_container f w)
unfolding change_container
change_container-Errless f w e = elim (List-cases (pod_of w).containers) [
  | inl n ↦ rw n tt
  | inr (c, cs, n) ↦ rw n e
]

-- A change of a container may only panic.
pub change_container-returns :
    (f : Container → Container) (w : Workload) → Errless Any (change_container f w)
unfolding change_container
change_container-returns f w = elim (List-cases (pod_of w).containers) [
  | inl n ↦ rw n tt
  | inr (c, cs, n) ↦ rw n tt
]

pub add_envs_to_first-Errless :
    (kind : ObjectKind) (name var : String) (w : Workload)
    → HasInstaller w
    → Errless HasInstaller (add_envs_to_first kind name var w)
unfolding add_envs_to_first
add_envs_to_first-Errless kind name var w e = change_container-Errless _ w e

pub label_workload-Errless :
    (name value : String) (w : Workload)
    → HasInstaller w
    → Errless HasInstaller (label_workload name value w)
unfolding label_workload
label_workload-Errless name value w e = elim (Option-cases w.selector) [
  | inl n ↦ rw n tt
  | inr (x, n) ↦ rw n e
]

-- The installer is found by its name.
installer_of_names :
    (c c' : Container) (cs : List Container)
    → c'.name ≡ c.name
    → is_some (dynamic_plugins_init_container (c' ∷ cs))
      ≡ is_some (dynamic_plugins_init_container (c ∷ cs))
unfolding dynamic_plugins_init_container
installer_of_names c c' cs e = ground (arith, e)

pub installer_of_map :
    (f : Container → Container) (cs : List Container)
    → ((c : Container) → (f c).name ≡ c.name)
    → is_some (dynamic_plugins_init_container (map f cs))
      ≡ is_some (dynamic_plugins_init_container cs)
unfolding dynamic_plugins_init_container
installer_of_map f [] keeps = refl
installer_of_map f (c ∷ cs) keeps = ground (arith, keeps c, installer_of_map f cs keeps)

module _ (p : Platform) where
  pub mount_in_first-Errless :
      (kind : ObjectKind) (name path file : String) (content : Option (StringMap String))
      (w : Workload)
      → HasInstaller w
      → Errless HasInstaller (mount_in_first p kind name path file content (pod_of w).containers w)
  unfolding mount_in_first mount_files_from
  mount_in_first-Errless kind name path file content w e = elim (List-cases (pod_of w).containers) [
    | inl n ↦ rw n tt
    | inr (c, cs, n) ↦ rw n e
  ]

  name-mount_each :
      (vol path file : String) (files : List String) (c : Container)
      → (mount_each p vol path file files c).name ≡ c.name
  unfolding mount_each
  name-mount_each vol path file [] c = refl
  name-mount_each vol path file (f ∷ files) c = name-mount_each vol path file files _ ∙ ground arith

  name-mount_files_from :
      (s : PodSpec) (c : Container) (kind : ObjectKind) (name path file : String)
      (content : Option (StringMap String))
      → (mount_files_from p s c kind name path file content).1.name ≡ c.name
  unfolding mount_files_from
  name-mount_files_from s c kind name path file none = refl
  name-mount_files_from s c kind name path file (some m) =
      name-mount_each (generate_volume_name_from_cm_or_secret name) path file
        (p.range_order mounts (length s.volumes) (keys m)) c

  pub mount_in_first_init-Errless :
      (kind : ObjectKind) (name path file : String) (content : Option (StringMap String))
      (inits : List Container) (w : Workload)
      → is_some (dynamic_plugins_init_container inits) ≡ true
      → Errless HasInstaller (mount_in_first_init p kind name path file content inits w)
  unfolding mount_in_first_init
  mount_in_first_init-Errless kind name path file content [] w e = tt
  mount_in_first_init-Errless kind name path file content (c ∷ cs) w e =
      installer_of_names c (mount_files_from p (pod_of w) c kind name path file content).1 cs
        (name-mount_files_from (pod_of w) c kind name path file content)
      ∙ e
