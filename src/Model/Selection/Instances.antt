-- ===== src/Model/Selection/Instances.antt =====
-- The service of one Backstage resource and the database pods of another one in its namespace:
-- setMetaInfo of pkg/model/service.go and of pkg/model/db-statefulset.go.
use text.Mathlib.TextLemmas.{append_assoc, append_cancel_left}
use janus_idp_operator.Prelude.{String, ◌^◌, Option, some, ◌≡◌, refl, sym, ◌∙◌, ap, subst, ◌↔◌}
use text.Mathlib.TextPositions.{eq_refl}
use janus_idp_operator.StringMap.{StringMap, lookup}
use janus_idp_operator.GoError.{ok}
use janus_idp_operator.Kube.{Service, Workload}
use janus_idp_operator.Utils.{made, generate_label}
use janus_idp_operator.Utils.Labels.{lookup-generate_label}
use janus_idp_operator.Model.Pods.{backstage_app_label}
use janus_idp_operator.Model.BackstageService
use janus_idp_operator.Model.DbStatefulSet
use janus_idp_operator.Model.Selection.{
  Matches, labeled, label_workload_lem, generate_label-Matches,
}

lookup-generate_label_self :
    (labels : Option (StringMap String)) (name value : String)
    → lookup name (made (generate_label labels name value)) ≡ some value
lookup-generate_label_self labels name value =
    lookup-generate_label labels name value name ∙ rw (eq_refl name) refl

-- Labels that match a selector have the same value under a name that both were given.
same_value_of_Matches :
    (selector labels : Option (StringMap String)) (name u v : String)
    → Matches (generate_label selector name u) (generate_label labels name v)
    → u ≡ v
same_value_of_Matches selector labels name u v matches = cc (
  matches name u (lookup-generate_label_self selector name u),
  lookup-generate_label_self labels name v,
)

db_value : (y : String) → "backstage-db-" ^ y ≡ "backstage-" ^ ("db-" ^ y)
db_value y = append_assoc "backstage-" "db-" y

-- If the selector of the service matches the labels of the database's pods but for the label of the
-- operator, then after setMetaInfo, for the resource `x` and the database of `y`, the service selects
-- these pods exactly if `x` is `y` behind "db-".
pub set_meta_info-selects_db :
    (s : Service) (w : Workload) (match_labels : Option (StringMap String)) (x y : String)
    → w.selector ≡ some match_labels
    → Matches s.selector w.template.labels
    → (s' : Service) × (w' : Workload) × (BackstageService.set_meta_info (some s) x ≡ ok (some s'))
      × (DbStatefulSet.set_meta_info (some w) y ≡ ok (some w'))
      × (Matches s'.selector w'.template.labels ↔ (x ≡ "db-" ^ y))
unfolding BackstageService.set_meta_info DbStatefulSet.set_meta_info
set_meta_info-selects_db s w match_labels x y e matches =
    let u = "backstage-" ^ x in
    let v = "backstage-db-" ^ y in
    let w₁ : Workload = record w {
      meta = record w.meta { name = DbStatefulSet.db_stateful_set_name y };
    } in
    (
      record s {
        meta = record s.meta { name = BackstageService.service_name x };
        selector = generate_label s.selector backstage_app_label u;
      },
      labeled backstage_app_label v w₁ match_labels,
      refl,
      rw (label_workload_lem backstage_app_label v w₁ match_labels e) refl,
      (
        (λ selects. append_cancel_left "backstage-" x ("db-" ^ y) (
            same_value_of_Matches s.selector w.template.labels backstage_app_label u v selects
            ∙ db_value y)),
        (λ same.
            subst
              (λ t.
                Matches (generate_label s.selector backstage_app_label t)
                  (generate_label w.template.labels backstage_app_label v))
              (db_value y ∙ ap (λ t. "backstage-" ^ t) (sym same))
              (generate_label-Matches s.selector w.template.labels backstage_app_label v matches)),
      ),
    )
