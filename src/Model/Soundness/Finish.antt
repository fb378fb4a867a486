-- ===== src/Model/Soundness/Finish.antt =====
-- What validate makes of the deployment is complete: no contribution panics.
use janus_idp_operator.Prelude.{
  String, true, not, none, some, is_some, List, [], ◌∷◌, ◌==◌, ◌≡◌, refl, All,
}
use janus_idp_operator.GoError.{Safe}
use janus_idp_operator.GoError.Safety.{Safe-bind, Safe-if, Safe-option}
use janus_idp_operator.Kube.{Workload, zero_meta}
use janus_idp_operator.Api.{AppConfigSpec, BackstageSpec, ObjectKeyRef}
use janus_idp_operator.Platform.{Platform}
use janus_idp_operator.Model.Objects.{db_secret}
use janus_idp_operator.Model.State.{ExternalConfig, Ref, BackstageModel, load}
use janus_idp_operator.Model.Pods.{pod_of, config_map_at, mount_path_or_default}
use janus_idp_operator.Model.AppConfig
use janus_idp_operator.Model.ConfigMapEnvs
use janus_idp_operator.Model.ConfigMapFiles
use janus_idp_operator.Model.DynamicPlugins
use janus_idp_operator.Model.DynamicPlugins.{dynamic_plugins_init_container, plugins_name}
use janus_idp_operator.Model.SecretEnvs
use janus_idp_operator.Model.SecretFiles
use janus_idp_operator.Model.Deployment.{contribute_each, add_db_secret, finish}
use janus_idp_operator.Model.Soundness.{is_live, points}
use janus_idp_operator.Model.Soundness.Workloads.{IsComplete, add_envs_to_first-Safe}
use janus_idp_operator.Model.Soundness.Contributions.{
  app_config-Safe, config_map_files-Safe, config_map_envs-Safe, secret_envs-Safe, secret_files-Safe,
  plugins-Safe, contribute-Safe,
}
use janus_idp_operator.Model.Soundness.Application.{apply_application-Safe}
use janus_idp_operator.Model.Soundness.Cells.{secret_of_typed, load-some, load-live}

module _ (p : Platform) where
  app_configs-Safe :
      (s : AppConfigSpec) (external : ExternalConfig) (refs : List ObjectKeyRef) (w : Workload)
      → IsComplete w
      → Safe IsComplete (AppConfig.add_each p s external refs w)
  unfolding AppConfig.add_each
  app_configs-Safe s external [] w e = e
  app_configs-Safe s external (ref ∷ refs) w e =
      Safe-bind IsComplete _ _
        (app_config-Safe p
          (record {
            object = some (config_map_at ref.name external.app_configs);
            mount_path = mount_path_or_default s.mount_path;
            key = ref.key;
          })
          w refl e)
        λ w' e'. app_configs-Safe s external refs w' e'

  add_app_configs-Safe :
      (spec : BackstageSpec) (w : Workload) (external : ExternalConfig)
      → IsComplete w
      → Safe IsComplete (AppConfig.add_app_configs p spec w external)
  unfolding AppConfig.add_app_configs
  add_app_configs-Safe spec w external e =
      Safe-option IsComplete spec.application _ _ (λ _. e)
        λ app _.
          Safe-option IsComplete app.app_config _ _ (λ _. e)
            λ s _. app_configs-Safe s external s.config_maps w e

  files-Safe :
      (mp : String) (external : ExternalConfig) (refs : List ObjectKeyRef) (w : Workload)
      → IsComplete w
      → Safe IsComplete (ConfigMapFiles.add_each p mp external refs w)
  unfolding ConfigMapFiles.add_each
  files-Safe mp external [] w e = e
  files-Safe mp external (ref ∷ refs) w e =
      Safe-bind IsComplete _ _
        (config_map_files-Safe p
          (record {
            object = some (config_map_at ref.name external.extra_file_config_maps);
            mount_path = mp;
            key = ref.key;
          })
          w refl e)
        λ w' e'. files-Safe mp external refs w' e'

  add_config_map_files-Safe :
      (spec : BackstageSpec) (w : Workload) (external : ExternalConfig)
      → IsComplete w
      → Safe IsComplete (ConfigMapFiles.add_config_map_files p spec w external)
  unfolding ConfigMapFiles.add_config_map_files
  add_config_map_files-Safe spec w external e =
      Safe-option IsComplete spec.application _ _ (λ _. e)
        λ app _.
          Safe-option IsComplete app.extra_files _ _ (λ _. e)
            λ s _. files-Safe _ external s.config_maps w e

  envs-Safe :
      (external : ExternalConfig) (refs : List ObjectKeyRef) (w : Workload)
      → IsComplete w
      → Safe IsComplete (ConfigMapEnvs.add_each external refs w)
  unfolding ConfigMapEnvs.add_each
  envs-Safe external [] w e = e
  envs-Safe external (ref ∷ refs) w e =
      Safe-bind IsComplete _ _
        (config_map_envs-Safe p
          (record {
            object = some (config_map_at ref.name external.extra_env_config_maps);
            key = ref.key;
          })
          w refl e)
        λ w' e'. envs-Safe external refs w' e'

  add_config_map_envs-Safe :
      (spec : BackstageSpec) (w : Workload) (external : ExternalConfig)
      → IsComplete w
      → Safe IsComplete (ConfigMapEnvs.add_config_map_envs spec w external)
  unfolding ConfigMapEnvs.add_config_map_envs
  add_config_map_envs-Safe spec w external e =
      Safe-option IsComplete spec.application _ _ (λ _. e)
        λ app _.
          Safe-option IsComplete app.extra_envs _ _ (λ _. e)
            λ s _. envs-Safe external s.config_maps w e

  secrets-Safe :
      (mp : String) (refs : List ObjectKeyRef) (w : Workload)
      → IsComplete w
      → Safe IsComplete (SecretFiles.add_each p mp refs w)
  unfolding SecretFiles.add_each
  secrets-Safe mp [] w e = e
  secrets-Safe mp (sec ∷ secs) w e =
      Safe-if IsComplete (sec.key == "") _ _ (λ _. tt)
        λ _.
          Safe-bind IsComplete _ _ (secret_files-Safe p (SecretFiles.mount_of p mp sec) w refl e)
            λ w' e'. secrets-Safe mp secs w' e'

  add_secret_files-Safe :
      (spec : BackstageSpec) (w : Workload)
      → IsComplete w
      → Safe IsComplete (SecretFiles.add_secret_files p spec w)
  unfolding SecretFiles.add_secret_files
  add_secret_files-Safe spec w e =
      Safe-option IsComplete spec.application _ _ (λ _. e)
        λ app _.
          Safe-option IsComplete app.extra_files _ _ (λ _. e) λ s _. secrets-Safe _ s.secrets w e

  variables-Safe :
      (refs : List ObjectKeyRef) (w : Workload)
      → IsComplete w
      → Safe IsComplete (SecretEnvs.add_each refs w)
  unfolding SecretEnvs.add_each
  variables-Safe [] w e = e
  variables-Safe (sec ∷ secs) w e =
      Safe-bind IsComplete _ _
        (secret_envs-Safe p
          (record {
            object =
                some (record { meta = record zero_meta { name = sec.name }; string_data = none });
            key = sec.key;
          })
          w refl e)
        λ w' e'. variables-Safe secs w' e'

  add_secret_envs-Safe :
      (spec : BackstageSpec) (w : Workload)
      → IsComplete w
      → Safe IsComplete (SecretEnvs.add_secret_envs spec w)
  unfolding SecretEnvs.add_secret_envs
  add_secret_envs-Safe spec w e =
      Safe-option IsComplete spec.application _ _ (λ _. e)
        λ app _.
          Safe-option IsComplete app.extra_envs _ _ (λ _. e) λ s _. variables-Safe s.secrets w e

  add_dynamic_plugins-Safe :
      (spec : BackstageSpec) (w : Workload) (external : ExternalConfig)
      → IsComplete w
      → Safe IsComplete (DynamicPlugins.add_dynamic_plugins p spec w external)
  unfolding DynamicPlugins.add_dynamic_plugins
  add_dynamic_plugins-Safe spec w external e =
      Safe-if IsComplete (plugins_name spec == "") _ _ (λ _. e)
        λ _.
          Safe-if IsComplete
            (not (is_some (dynamic_plugins_init_container (pod_of w).init_containers))) _ _
            (λ _. tt) λ _. plugins-Safe p (some external.dynamic_plugins) w refl e

  contribute_each-Safe :
      (m : BackstageModel) (rs : List Ref) (w : Workload)
      → All (λ r. is_live (m.heap r) ≡ true) rs
      → IsComplete w
      → Safe IsComplete (contribute_each p m rs w)
  unfolding contribute_each
  contribute_each-Safe m [] w live e = e
  contribute_each-Safe m (r ∷ rs) w (l, live) e =
      Safe-bind IsComplete (load m r) _ (load-live m r l) λ o found.
        Safe-bind IsComplete _ _ (contribute-Safe p o w found.1 e)
          λ w' e'. contribute_each-Safe m rs w' live e'

  add_db_secret-Safe :
      (m : BackstageModel) (w : Workload)
      → points m.heap 3 m.local_db_secret ≡ true
      → IsComplete w
      → Safe IsComplete (add_db_secret p m w)
  unfolding add_db_secret
  add_db_secret-Safe m w typed e =
      Safe-option IsComplete m.local_db_secret _ _ (λ _. e)
        λ q n.
          let (s, found) = secret_of_typed (m.heap q) (cc (typed, n)) in
          rw (load-some m q (db_secret (some s)) found)
            (add_envs_to_first-Safe _ s.meta.name "" w e)

  -- The whole of validate's work on the deployment.
  pub finish-Safe :
      (w : Workload) (spec : BackstageSpec) (m : BackstageModel)
      → All (λ r. is_live (m.heap r) ≡ true) m.runtime_objects
      → points m.heap 3 m.local_db_secret ≡ true
      → IsComplete w
      → Safe IsComplete (finish p w spec m)
  unfolding finish
  finish-Safe w spec m live typed e =
      Safe-bind IsComplete _ _ (apply_application-Safe spec.application w e) λ w₁ e₁.
        Safe-bind IsComplete _ _ (contribute_each-Safe m m.runtime_objects w₁ live e₁) λ w₂ e₂.
          Safe-bind IsComplete _ _ (add_app_configs-Safe spec w₂ m.external_config e₂) λ w₃ e₃.
            Safe-bind IsComplete _ _ (add_config_map_files-Safe spec w₃ m.external_config e₃)
              λ w₄ e₄.
                Safe-bind IsComplete _ _ (add_config_map_envs-Safe spec w₄ m.external_config e₄)
                  λ w₅ e₅. Safe-bind IsComplete _ _ (add_secret_files-Safe spec w₅ e₅) λ w₆ e₆.
                    Safe-bind IsComplete _ _ (add_secret_envs-Safe spec w₆ e₆) λ w₇ e₇.
                      Safe-bind IsComplete _ _
                        (add_dynamic_plugins-Safe spec w₇ m.external_config e₇)
                        λ w₈ e₈. add_db_secret-Safe m w₈ typed e₈
