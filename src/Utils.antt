-- ===== src/Utils.antt =====
-- pkg/utils/utils.go: names, labels, YAML files, passwords, and the test for OpenShift.
pub mod PodMutator
pub mod Labels
use janus_idp_operator.Prelude.{
  String, ℕ, Bool, true, false, Option, none, some, List, [], ◌∷◌, ◌==◌, ◌^◌, if◌then◌else◌,
}
use janus_idp_operator.StringMap.{StringMap, insert}
use janus_idp_operator.GoError.{
  GoError, wrap, Outcome, ok, err, ◌>>=◌, Reply, answered, failed, or_fail,
}
use janus_idp_operator.Kube.{KubeObject}
use janus_idp_operator.Platform.{Platform}

-- if labels == nil { labels = map[string]string{} }
abbrev pub made : Option (StringMap String) → StringMap String
made none = []
made (some m) = m

unfoldable pub set_kube_labels : Option (StringMap String) → String → StringMap String
set_kube_labels labels backstage_name =
    insert "app.kubernetes.io/instance" backstage_name
      (insert "app.kubernetes.io/name" "backstage" (made labels))

-- The new content of *labels.
unfoldable pub generate_label :
    Option (StringMap String) → String → String → Option (StringMap String)
generate_label labels name value = some (insert name value (made labels))

unfoldable pub generate_runtime_object_name : String → String → String
generate_runtime_object_name backstage_cr_name object_type = backstage_cr_name ^ "-" ^ object_type

unfoldable pub generate_volume_name_from_cm_or_secret : String → String
generate_volume_name_from_cm_or_secret cm_or_secret_name = cm_or_secret_name

-- for i := 0; i < len(apiGroups); i++ { if apiGroups[i].Name == "route.openshift.io" … }
unfoldable pub has_route_group : List String → Bool
has_route_group [] = false
has_route_group (group ∷ groups) =
    let rest = has_route_group groups in if group == "route.openshift.io" then true else rest

-- The arguments are the discovery client that the cluster's configuration gives, and its answer
-- to ServerGroups(), the names of the API groups.
unfoldable pub is_openshift : Option GoError → Reply (List String) → Outcome Bool
unfolding has_route_group
is_openshift (some e) groups = err e
is_openshift none (failed e) = err e
is_openshift none (answered groups) = ok (has_route_group groups)

module _ (p : Platform) where
  unfoldable pub read_yaml : String → KubeObject → Outcome KubeObject
  read_yaml manifest o = or_fail (wrap "failed to decode YAML: ") (p.decode manifest o)

  unfoldable pub read_yaml_file : String → KubeObject → Outcome KubeObject
  unfolding read_yaml
  read_yaml_file path o =
      let fpath = p.clean path in
      elim (p.stat fpath) [
        | some e ↦ err e
        | none ↦ do
          manifest ← or_fail (wrap "failed to read YAML file: ") (p.read_file fpath)
          read_yaml manifest o
      ]

  unfoldable pub def_file : String → String
  def_file key = p.join (p.getenv "LOCALBIN" ∷ "default-config" ∷ key ∷ [])

  unfoldable pub generate_password : ℕ → Outcome String
  generate_password length = elim (p.rand_read length) [
    | failed e ↦ err e
    | answered buff ↦ ok (p.base64 buff)
  ]
