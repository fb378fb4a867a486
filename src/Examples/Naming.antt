-- ===== src/Examples/Naming.antt =====
-- The names and the labels of two Backstage resources.
use janus_idp_operator.Prelude.{String, some, [], ◌∷◌, ◌^◌, ◌≡◌, ◌↔◌, refl}
use janus_idp_operator.GoError.{ok}
use janus_idp_operator.Kube.{Service, Workload, ConfigMap, zero_config_map}
use janus_idp_operator.Model.Objects.{type_code, dynamic_plugins}
use janus_idp_operator.Model.Methods.{set_object_meta_info}
use janus_idp_operator.Model.DynamicPlugins
use janus_idp_operator.Model.Names.{set_object_meta_info-separates}
use janus_idp_operator.Model.BackstageService
use janus_idp_operator.Model.DbStatefulSet
use janus_idp_operator.Model.Selection.{Matches}
use janus_idp_operator.Model.Selection.Instances.{set_meta_info-selects_db}
use janus_idp_operator.Examples.Workloads.{selecting_service, selected_workload}

abbrev plugins_map : ConfigMap
plugins_map = record zero_config_map {
  meta = record zero_config_map.meta { name = "bs1-backstage-dynamic-plugins" };
}

plugins_named :
    set_object_meta_info (dynamic_plugins (some zero_config_map)) "bs1"
    ≡ ok (dynamic_plugins (some plugins_map))
unfolding set_object_meta_info DynamicPlugins.set_meta_info
    DynamicPlugins.dynamic_plugins_default_name
plugins_named = refl

set_object_meta_info-separates_example :
    (type_code (dynamic_plugins (some zero_config_map))
      ≡ type_code (dynamic_plugins (some zero_config_map)))
    × (◌≡◌ {A = String} "bs1" "bs1")
set_object_meta_info-separates_example =
    set_object_meta_info-separates (dynamic_plugins (some zero_config_map))
      (dynamic_plugins (some zero_config_map)) (dynamic_plugins (some plugins_map))
      (dynamic_plugins (some plugins_map)) "bs1" "bs1" plugins_named plugins_named refl

set_meta_info-selects_db_example :
    (s' : Service) × (w' : Workload) × (BackstageService.set_meta_info
        (some selecting_service)
        "db-bs1"
      ≡ ok (some s'))
    × (DbStatefulSet.set_meta_info (some selected_workload) "bs1" ≡ ok (some w'))
    × (Matches s'.selector w'.template.labels ↔ (◌≡◌ {A = String} "db-bs1" ("db-" ^ "bs1")))
set_meta_info-selects_db_example =
    set_meta_info-selects_db selecting_service selected_workload (some (("app", "backstage") ∷ []))
      "db-bs1" "bs1" refl (λ k v e. e)
