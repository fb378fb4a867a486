-- ===== src/Examples/Configs.antt =====
-- An app-config with two files.
use janus_idp_operator.Prelude.{String, some, [], ◌∷◌}
use janus_idp_operator.StringMap.{StringMap}
use janus_idp_operator.Kube.{ConfigMap, zero_config_map}
use janus_idp_operator.Model.Objects.{ConfigMapMount}
use janus_idp_operator.Examples.{named}

abbrev config_files : StringMap String
config_files = ("app.yaml", "1") ∷ ("more.yaml", "2") ∷ []

abbrev config_object : ConfigMap
config_object = record zero_config_map { meta = named "config"; content = some config_files }

abbrev sample_mount : ConfigMapMount
sample_mount = record { object = some config_object; mount_path = "/opt"; key = "more.yaml" }
