-- ===== src/Model/AppConfig/Arguments.antt =====
-- The arguments and mounts of the app-config files.
use mathlib.Core.List.{filter, Perm}
use mathlib.Core.List.Perm
use janus_idp_operator.Prelude.{String, List, [], ◌∷◌, ◌++◌, map, ◌≡◌}
use janus_idp_operator.StringMap.{StringMap, keys}
use janus_idp_operator.Kube.{Container}
use janus_idp_operator.Platform.{Platform}
use janus_idp_operator.Utils.PodMutator.{file_mount}
use janus_idp_operator.Utils.PodMutator.Laws.{dec_selected}
use janus_idp_operator.Model.Objects.{ConfigMapMount}

module _ (p : Platform) where
  -- One --config for each file.
  abbrev pub args_of : String → List String → List String
  args_of dir [] = []
  args_of dir (file ∷ files) = "--config" ∷ p.join (dir ∷ file ∷ []) ∷ args_of dir files

  -- The container with the app-config files that the key selects, all of them if it is empty: each
  -- is mounted and named after a --config, in some order.
  pub record IsConfigured (b : ConfigMapMount) (name : String) (m : StringMap String)
      (old new : Container) : Type 0 where
    pub files : List String
    pub selected : Perm files (filter (dec_selected b.key) (keys m))
    pub args : new.args ≡ old.args ++ args_of b.mount_path files
    pub mounts : Perm new.volume_mounts (
        old.volume_mounts
        ++ map (file_mount p name b.mount_path) (filter (dec_selected b.key) (keys m)))
