-- ===== src/Model/Soundness/Contributions.antt =====
-- The contributions of the runtime objects and of the spec to a deployment do not panic.
use janus_idp_operator.Prelude.{
  true, Option, none, some, is_some, List, [], ◌∷◌, ◌≡◌, refl, inl, inr, Option-cases,
}
use janus_idp_operator.GoError.{Safe}
use janus_idp_operator.GoError.Safety.{Safe-bind, Safe-option}
use janus_idp_operator.Kube.{Container, Workload, ConfigMap}
use janus_idp_operator.Platform.{Platform}
use janus_idp_operator.Model.Objects.{
  RuntimeObject, app_config, config_map_envs, config_map_files, db_secret, db_service,
  db_stateful_set, backstage_deployment, dynamic_plugins, backstage_route, secret_envs,
  secret_files, backstage_service, ConfigMapMount, ConfigMapRef, SecretMount, SecretRef,
}
use janus_idp_operator.Model.Pods.{pod_of}
use janus_idp_operator.Model.AppConfig
use janus_idp_operator.Model.ConfigMapEnvs
use janus_idp_operator.Model.ConfigMapFiles
use janus_idp_operator.Model.DynamicPlugins
use janus_idp_operator.Model.DynamicPlugins.{dynamic_plugins_init_container, plugins_name}
use janus_idp_operator.Model.SecretEnvs
use janus_idp_operator.Model.SecretFiles
use janus_idp_operator.Model.Deployment.{contribute}
use janus_idp_operator.Model.Soundness.{is_sound}
use janus_idp_operator.Model.Soundness.Workloads.{
  IsComplete, change_container-Safe, mount_in_first-Safe, mount_in_first_init-Safe,
  add_envs_to_first-Safe,
}

module _ (p : Platform) where
  pub app_config-Safe :
      (b : ConfigMapMount) (w : Workload)
      → is_some b.object ≡ true
      → IsComplete w
      → Safe IsComplete (AppConfig.update_pod p b w)
  unfolding AppConfig.update_pod
  app_config-Safe b w live e = elim (Option-cases b.object) [
    | inl n ↦ cc (live, n)
    | inr (cm, n) ↦ rw n (
        Safe-bind IsComplete _ _
          (mount_in_first-Safe p _ cm.meta.name b.mount_path b.key cm.content w e)
          λ w' e'. change_container-Safe _ w' e')
  ]

  pub config_map_files-Safe :
      (b : ConfigMapMount) (w : Workload)
      → is_some b.object ≡ true
      → IsComplete w
      → Safe IsComplete (ConfigMapFiles.update_pod p b w)
  unfolding ConfigMapFiles.update_pod
  config_map_files-Safe b w live e = elim (Option-cases b.object) [
    | inl n ↦ cc (live, n)
    | inr (cm, n) ↦ rw n (mount_in_first-Safe p _ cm.meta.name b.mount_path b.key cm.content w e)
  ]

  pub config_map_envs-Safe :
      (b : ConfigMapRef) (w : Workload)
      → is_some b.object ≡ true
      → IsComplete w
      → Safe IsComplete (ConfigMapEnvs.update_pod b w)
  unfolding ConfigMapEnvs.update_pod
  config_map_envs-Safe b w live e = elim (Option-cases b.object) [
    | inl n ↦ cc (live, n)
    | inr (cm, n) ↦ rw n (add_envs_to_first-Safe _ cm.meta.name b.key w e)
  ]

  pub secret_envs-Safe :
      (b : SecretRef) (w : Workload)
      → is_some b.object ≡ true
      → IsComplete w
      → Safe IsComplete (SecretEnvs.update_pod b w)
  unfolding SecretEnvs.update_pod
  secret_envs-Safe b w live e = elim (Option-cases b.object) [
    | inl n ↦ cc (live, n)
    | inr (s, n) ↦ rw n (add_envs_to_first-Safe _ s.meta.name b.key w e)
  ]

  pub secret_files-Safe :
      (b : SecretMount) (w : Workload)
      → is_some b.object ≡ true
      → IsComplete w
      → Safe IsComplete (SecretFiles.update_pod p b w)
  unfolding SecretFiles.update_pod
  secret_files-Safe b w live e = elim (Option-cases b.object) [
    | inl n ↦ cc (live, n)
    | inr (s, n) ↦ rw n (mount_in_first-Safe p _ s.meta.name b.mount_path b.key s.string_data w e)
  ]

  -- The installer of the plugins is an init container, so there is one to mount into.
  has_installer :
      (cs : List Container) (ic : Container)
      → dynamic_plugins_init_container cs ≡ some ic
      → (c : Container) × (rest : List Container) × (cs ≡ c ∷ rest)
  unfolding dynamic_plugins_init_container
  has_installer [] ic e = cc
  has_installer (c ∷ rest) ic e = (c, rest, refl)

  pub plugins-Safe :
      (b : Option ConfigMap) (w : Workload)
      → is_some b ≡ true
      → IsComplete w
      → Safe IsComplete (DynamicPlugins.update_pod p b w)
  unfolding DynamicPlugins.update_pod
  plugins-Safe none w live e = cc
  plugins-Safe (some cm) w live e =
      Safe-option IsComplete (dynamic_plugins_init_container (pod_of w).init_containers) _ _
        (λ n. e)
        λ ic n.
          let (c, cs, q) = has_installer (pod_of w).init_containers ic n in
          mount_in_first_init-Safe p _ cm.meta.name ic.working_dir _ cm.content w c cs q e

  pub contribute-Safe :
      (o : RuntimeObject) (w : Workload)
      → is_sound o ≡ true
      → IsComplete w
      → Safe IsComplete (contribute p o w)
  unfolding contribute
  contribute-Safe (app_config b) w live e = app_config-Safe b w live e
  contribute-Safe (config_map_envs b) w live e = config_map_envs-Safe b w live e
  contribute-Safe (config_map_files b) w live e = config_map_files-Safe b w live e
  contribute-Safe (dynamic_plugins b) w live e = plugins-Safe b w live e
  contribute-Safe (secret_envs b) w live e = secret_envs-Safe b w live e
  contribute-Safe (secret_files b) w live e = secret_files-Safe b w live e
  contribute-Safe (db_secret b) w live e = e
  contribute-Safe (db_service b) w live e = e
  contribute-Safe (db_stateful_set b) w live e = e
  contribute-Safe (backstage_deployment b) w live e = e
  contribute-Safe (backstage_route b) w live e = e
  contribute-Safe (backstage_service b) w live e = e
