-- ===== src/Model/Selection.antt =====
-- The services and the pods that they are for: setMetaInfo of pkg/model/service.go and deployment.go,
-- and of pkg/model/db-service.go and db-statefulset.go.
pub mod Instances
use janus_idp_operator.Prelude.{
  String, ◌^◌, ◌==◌, Option, some, ◌≡◌, refl, ◌∙◌, Bool-cases, inl, inr, if◌then◌else◌,
}
use janus_idp_operator.StringMap.{StringMap, lookup}
use janus_idp_operator.GoError.{ok}
use janus_idp_operator.Kube.{ObjectMeta, Service, Workload}
use janus_idp_operator.Utils.{made, generate_label}
use janus_idp_operator.Utils.Labels.{lookup-generate_label}
use janus_idp_operator.Model.Pods.{label_workload, backstage_app_label}
use janus_idp_operator.Model.BackstageService
use janus_idp_operator.Model.DbService
use janus_idp_operator.Model.DbStatefulSet
use janus_idp_operator.Model.Deployment

-- A selector matches labels that have each of its entries.
abbrev pub Matches : (selector labels : Option (StringMap String)) → Type 0
Matches selector labels =
    (k v : String) → lookup k (made selector) ≡ some v → lookup k (made labels) ≡ some v

pub generate_label-Matches :
    (selector labels : Option (StringMap String)) (name value : String)
    → Matches selector labels
    → Matches (generate_label selector name value) (generate_label labels name value)
generate_label-Matches selector labels name value matches k v e = elim (Bool-cases (name == k)) [
  | inl same ↦
      lookup-generate_label labels name value k
      ∙ rw same (cc (e, lookup-generate_label selector name value k, same))
  | inr other ↦
      let unlabeled : (if name == k then some value else lookup k (made selector))
          ≡ lookup k (made selector) =
        rw other refl in
      lookup-generate_label labels name value k
      ∙ rw other (matches k v (cc (e, lookup-generate_label selector name value k, unlabeled)))
]

-- The workload with the label.
abbrev pub labeled : (name value : String) → Workload → Option (StringMap String) → Workload
labeled name value w match_labels = record w {
  selector = some (generate_label match_labels name value);
  template = record w.template { labels = generate_label w.template.labels name value };
}

pub label_workload_lem :
    (name value : String) (w : Workload) (match_labels : Option (StringMap String))
    → w.selector ≡ some match_labels
    → label_workload name value w ≡ ok (labeled name value w match_labels)
unfolding label_workload
label_workload_lem name value w match_labels e = rw e refl

-- The service selects the workload's pods, and the workload's own selector matches them.
pub record IsSelected (s : Service) (w : Workload) : Type 0 where
  pub match_labels : Option (StringMap String)
  pub selector_is : w.selector ≡ some match_labels
  pub by_service : Matches s.selector w.template.labels
  pub by_workload : Matches match_labels w.template.labels

labeled-IsSelected :
    (s : Service) (w : Workload) (value : String) (m n : ObjectMeta)
    → (i : IsSelected s w)
    → IsSelected
        (record s { meta = m; selector = generate_label s.selector backstage_app_label value })
        (labeled backstage_app_label value (record w { meta = n }) i.match_labels)
labeled-IsSelected s w value m n i = record {
  match_labels = generate_label i.match_labels backstage_app_label value;
  selector_is = refl;
  by_service =
      generate_label-Matches s.selector w.template.labels backstage_app_label value i.by_service;
  by_workload =
      generate_label-Matches i.match_labels w.template.labels backstage_app_label value
        i.by_workload;
}

-- If the selectors of the service and of the deployment match the labels of the deployment's pods,
-- they do so after setMetaInfo, which then panics for neither of the two: the service keeps
-- selecting the pods of its own deployment.
pub set_meta_info-IsSelected :
    (s : Service) (w : Workload) (name : String)
    → IsSelected s w
    → (s' : Service) × (w' : Workload) × (BackstageService.set_meta_info (some s) name
        ≡ ok (some s'))
      × (Deployment.set_meta_info (some w) name ≡ ok (some w'))
      × IsSelected s' w'
unfolding BackstageService.set_meta_info Deployment.set_meta_info
set_meta_info-IsSelected s w name i =
    let value = "backstage-" ^ name in
    let w₁ : Workload = record w {
      meta = record w.meta { name = Deployment.deployment_name name };
    } in
    (
      record s {
        meta = record s.meta { name = BackstageService.service_name name };
        selector = generate_label s.selector backstage_app_label value;
      },
      labeled backstage_app_label value w₁ i.match_labels,
      refl,
      rw (label_workload_lem backstage_app_label value w₁ i.match_labels i.selector_is) refl,
      labeled-IsSelected s w value _ _ i,
    )

-- If the selectors of the database's service and of its stateful set match the labels of the stateful
-- set's pods, they do so after setMetaInfo, which then panics for neither of the two.
pub db_set_meta_info-IsSelected :
    (s : Service) (w : Workload) (name : String)
    → IsSelected s w
    → (s' : Service) × (w' : Workload) × (DbService.set_meta_info (some s) name ≡ ok (some s'))
      × (DbStatefulSet.set_meta_info (some w) name ≡ ok (some w'))
      × IsSelected s' w'
unfolding DbService.set_meta_info DbStatefulSet.set_meta_info
db_set_meta_info-IsSelected s w name i =
    let value = "backstage-db-" ^ name in
    let w₁ : Workload = record w {
      meta = record w.meta { name = DbStatefulSet.db_stateful_set_name name };
    } in
    (
      record s {
        meta = record s.meta { name = DbService.db_service_name name };
        selector = generate_label s.selector backstage_app_label value;
      },
      labeled backstage_app_label value w₁ i.match_labels,
      refl,
      rw (label_workload_lem backstage_app_label value w₁ i.match_labels i.selector_is) refl,
      labeled-IsSelected s w value _ _ i,
    )
