-- ===== src/Utils/PodMutator/Laws.antt =====
-- What MountFilesFrom leaves in the pod and in the container.
use mathlib.Core.List.{filter, append-nil, append_assoc, Perm}
use mathlib.Core.List.Perm
use mathlib.Core.Bool.{false≢true}
use mathlib.Core.Logic.{dite}
use janus_idp_operator.Prelude.{
  String, Bool, true, false, ◌||◌, none, some, List, [], ◌∷◌, ◌++◌, map, ◌==◌, ◌≡◌, refl, sym, ◌∙◌,
  if◌then◌else◌,
}
use janus_idp_operator.Prelude.Counting.{length}
use janus_idp_operator.StringMap.{StringMap, keys}
use janus_idp_operator.Kube.{PodSpec, Container, Volume}
use janus_idp_operator.Platform.{Platform, VisitsAll, mounts}
use janus_idp_operator.Utils.{generate_volume_name_from_cm_or_secret}
use janus_idp_operator.Utils.PodMutator.{
  ObjectKind, mount_each, mount_files_from, file_mount, add_mount,
}

abbrev pub dec_true : (b : Bool) → Dec (b ≡ true)
dec_true true = yes refl
dec_true false = no false≢true

-- The files that a file name selects: all of them if it is empty.
abbrev pub dec_selected :
    (file_name file : String) → Dec ((file_name == "" || file_name == file) ≡ true)
dec_selected file_name file = dec_true (file_name == "" || file_name == file)

module _ (p : Platform) where
  volume_mounts-mount_each :
      (vol mp fn : String) (files : List String) (c : Container)
      → (mount_each p vol mp fn files c).volume_mounts
        ≡ c.volume_mounts ++ map (file_mount p vol mp) (filter (dec_selected fn) files)
  unfolding mount_each
  volume_mounts-mount_each vol mp fn [] c = sym (append-nil c.volume_mounts)
  volume_mounts-mount_each vol mp fn (f ∷ files) c =
      split (fn == "" || fn == f) (λ c'. volume_mounts-mount_each vol mp fn files c')
    where
      split :
          (b : Bool)
          → ((c' : Container)
              → (mount_each p vol mp fn files c').volume_mounts
                ≡ c'.volume_mounts ++ map (file_mount p vol mp) (filter (dec_selected fn) files))
          → (mount_each p vol mp fn files
              (if b then add_mount (file_mount p vol mp f) c else c)).volume_mounts
            ≡ c.volume_mounts
              ++ map (file_mount p vol mp) (
                  dite
                    (dec_true b)
                    (λ e. f ∷ filter (dec_selected fn) files)
                    (λ e. filter (dec_selected fn) files))
      split true ih =
          ih (add_mount (file_mount p vol mp f) c)
          ∙ append_assoc c.volume_mounts (file_mount p vol mp f ∷ []) _
      split false ih = ih c

  args-mount_each :
      (vol mp fn : String) (files : List String) (c : Container)
      → (mount_each p vol mp fn files c).args ≡ c.args
  unfolding mount_each
  args-mount_each vol mp fn [] c = refl
  args-mount_each vol mp fn (f ∷ files) c =
      split (fn == "" || fn == f) (λ c'. args-mount_each vol mp fn files c')
    where
      split :
          (b : Bool)
          → ((c' : Container) → (mount_each p vol mp fn files c').args ≡ c'.args)
          → (mount_each p vol mp fn files
              (if b then add_mount (file_mount p vol mp f) c else c)).args
            ≡ c.args
      split true ih = ih (add_mount (file_mount p vol mp f) c)
      split false ih = ih c

-- The volume of a ConfigMap.
abbrev pub config_map_volume : String → Volume
config_map_volume name = record {
  name = name;
  source = record {
    config_map_source =
        some (record { object_name = name; default_mode = some 420; is_optional = some false });
    secret_source = none;
  };
}

-- MountFilesFrom leaves the container's arguments alone.
pub args-mount_files_from :
    (p : Platform) (s : PodSpec) (c : Container) (kind : ObjectKind) (object_name mp fn : String)
    (m : StringMap String)
    → (mount_files_from p s c kind object_name mp fn (some m)).1.args ≡ c.args
unfolding mount_files_from generate_volume_name_from_cm_or_secret
args-mount_files_from p s c kind object_name mp fn m =
    args-mount_each p (generate_volume_name_from_cm_or_secret object_name) mp fn
      (p.range_order mounts (length s.volumes) (keys m)) c

-- Of an object with content, the container gets one mount for each key that the file name selects
-- beside the mounts that it had, in whatever order the keys are visited: each key if the file name is
-- empty, the key of that name if there is one, and no mount, without an error, if no key fits.
pub mount_files_from-perm :
    (p : Platform) (s : PodSpec) (c : Container) (kind : ObjectKind) (object_name mp fn : String)
    (m : StringMap String)
    → VisitsAll p
    → Perm
        (mount_files_from p s c kind object_name mp fn (some m)).1.volume_mounts
        (c.volume_mounts ++ map (file_mount p object_name mp) (filter (dec_selected fn) (keys m)))
unfolding mount_files_from generate_volume_name_from_cm_or_secret
mount_files_from-perm p s c kind object_name mp fn m visits =
    rw
      (volume_mounts-mount_each p object_name mp fn
        (p.range_order mounts (length s.volumes) (keys m)) c)
      (Perm.append_left c.volume_mounts (
        Perm.map (file_mount p object_name mp)
          (Perm.filter (dec_selected fn) (visits mounts (length s.volumes) (keys m)))))
