-- ===== src/Model/DynamicPlugins/InitContainers.antt =====
-- What the dynamic plugins do to the init containers of the deployment.
use mathlib.Core.List.{filter, Perm}
use janus_idp_operator.Prelude.{String, List, [], ◌∷◌, ◌++◌, map, ◌≡◌}
use janus_idp_operator.StringMap.{StringMap, keys}
use janus_idp_operator.Kube.{Container, Workload, ConfigMap}
use janus_idp_operator.Platform.{Platform}
use janus_idp_operator.Utils.PodMutator.{file_mount}
use janus_idp_operator.Utils.PodMutator.Laws.{config_map_volume, dec_selected}
use janus_idp_operator.Model.Pods.{pod_of}

-- The init containers begin with c, and the plugins of the ConfigMap are mounted into it: the pod
-- has got the volume of the ConfigMap, and c a mount of dynamic-plugins.yaml in that directory,
-- where the ConfigMap has that key.
abbrev pub IsFirstMounted :
    Platform
    → ConfigMap
    → StringMap String
    → (dir : String) → Container
    → List Container
    → Workload
    → Workload
    → Type 0
IsFirstMounted p cm content dir c cs w w' =
    ((pod_of w').volumes ≡ (pod_of w).volumes ++ config_map_volume cm.meta.name ∷ [])
    × ((c' : Container) × ((pod_of w').init_containers ≡ c' ∷ cs)
        × Perm c'.volume_mounts (
            c.volume_mounts
            ++ map (file_mount p cm.meta.name dir)
                (filter (dec_selected "dynamic-plugins.yaml") (keys content)))
        × (c'.args ≡ c.args))
    × ((pod_of w').containers ≡ (pod_of w).containers)
