-- ===== src/Utils/Labels.antt =====
-- What the label functions of pkg/utils/utils.go leave in a map of labels.
use janus_idp_operator.Prelude.{String, Option, some, ◌==◌, ◌≡◌, if◌then◌else◌}
use janus_idp_operator.StringMap.{StringMap, lookup}
use janus_idp_operator.StringMap.Laws.{lookup-insert}
use janus_idp_operator.Utils.{made, set_kube_labels, generate_label}

-- After SetKubeLabels the two Kubernetes labels have their values, whatever they were before, and
-- every other label is what it was; a nil map counts as empty.
pub lookup-set_kube_labels :
    (labels : Option (StringMap String)) (name k : String)
    → lookup k (set_kube_labels labels name) ≡ (
        if "app.kubernetes.io/instance" == k
        then some name
        else if "app.kubernetes.io/name" == k
        then some "backstage"
        else lookup k (made labels))
unfolding set_kube_labels
lookup-set_kube_labels labels name k = simp lookup-insert

-- GenerateLabel sets its one label and leaves the others.
pub lookup-generate_label :
    (labels : Option (StringMap String)) (name value k : String)
    → lookup k (made (generate_label labels name value))
      ≡ (if name == k then some value else lookup k (made labels))
unfolding generate_label
lookup-generate_label labels name value k = simp lookup-insert
