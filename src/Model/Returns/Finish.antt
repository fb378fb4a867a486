-- ===== src/Model/Returns/Finish.antt =====
-- What validate makes of the deployment returns no error and keeps the installer of the plugins.
use janus_idp_operator.Prelude.{String, Option, none, some, List, [], ◌∷◌, ◌≡◌, refl, ℤ, ◌∙◌}
use janus_idp_operator.GoError.Errless.{Errless, Errless-bind, Errless-option}
use janus_idp_operator.Kube.{Workload}
use janus_idp_operator.Api.{Application, BackstageSpec, Env, ExtraEnvs}
use janus_idp_operator.Platform.{Platform}
use janus_idp_operator.Model.Objects.{RuntimeObject, db_secret}
use janus_idp_operator.Model.State.{Ref, BackstageModel, load}
use janus_idp_operator.Model.Pods.{pod_of}
use janus_idp_operator.Model.DbStatefulSet.{set_image_of, secret_of}
use janus_idp_operator.Model.Deployment.{
  apply_application, add_extra_envs, add_envs, add_container_env_var, set_image, visit_containers,
  set_replicas, set_image_pull_secrets, contribute_each, add_db_secret, finish,
}
use janus_idp_operator.Model.Returns.{HasInstaller}
use janus_idp_operator.Model.Returns.Pods.{
  change_container-Errless, add_envs_to_first-Errless, installer_of_map,
}
use janus_idp_operator.Model.Returns.Contributions.{contribute-Errless}
use janus_idp_operator.Model.Returns.FromSpec.{
  HaveKeys, file_secrets, add_app_configs-Errless, add_config_map_files-Errless,
  add_config_map_envs-Errless, add_secret_files-Errless, add_secret_envs-Errless,
  add_dynamic_plugins-Errless,
}

-- The loop over the spec's variables.
add_envs-Errless :
    (es : List Env) (w : Workload) → HasInstaller w → Errless HasInstaller (add_envs es w)
unfolding add_envs add_container_env_var
add_envs-Errless [] w e = e
add_envs-Errless (x ∷ es) w e =
    Errless-bind HasInstaller _ _ (change_container-Errless _ w e)
      λ w' _ e'. add_envs-Errless es w' e'

add_extra_envs-Errless :
    (x : Option ExtraEnvs) (w : Workload)
    → HasInstaller w
    → Errless HasInstaller (add_extra_envs x w)
unfolding add_extra_envs
add_extra_envs-Errless none w e = e
add_extra_envs-Errless (some x) w e = add_envs-Errless x.envs w e

set_replicas-HasInstaller :
    (n : Option ℤ) (w : Workload) → HasInstaller w → HasInstaller (set_replicas n w)
unfolding set_replicas
set_replicas-HasInstaller none w e = e
set_replicas-HasInstaller (some n) w e = e

set_image_pull_secrets-HasInstaller :
    (ps : List String) (w : Workload) → HasInstaller w → HasInstaller (set_image_pull_secrets ps w)
unfolding set_image_pull_secrets
set_image_pull_secrets-HasInstaller [] w e = e
set_image_pull_secrets-HasInstaller (p ∷ ps) w e = set_image_pull_secrets-HasInstaller ps _ e

-- The image is set in the init containers too, which keep their names.
set_image-HasInstaller :
    (image : Option String) (w : Workload) → HasInstaller w → HasInstaller (set_image image w)
unfolding set_image visit_containers
set_image-HasInstaller none w e = e
set_image-HasInstaller (some image) w e =
    installer_of_map (set_image_of image) (pod_of w).init_containers (λ c. refl) ∙ e

apply_application-Errless :
    (app : Option Application) (w : Workload)
    → HasInstaller w
    → Errless HasInstaller (apply_application app w)
unfolding apply_application
apply_application-Errless none w e = e
apply_application-Errless (some app) w e = add_extra_envs-Errless app.extra_envs _ (
    set_image-HasInstaller app.image _ (
      set_image_pull_secrets-HasInstaller app.image_pull_secrets _
        (set_replicas-HasInstaller app.replicas w e)))

-- Reading a cell returns no error.
pub load-Errless : (m : BackstageModel) (r : Ref) → Errless (λ o. m.heap r ≡ some o) (load m r)
unfolding load
load-Errless m r = Errless-option (λ o. m.heap r ≡ some o) (m.heap r) _ _ (λ _. tt) λ o e. e

pub secret_of-Errless : (o : RuntimeObject) → Errless (λ s. Unit {0}) (secret_of o)
secret_of-Errless (db_secret none) = tt
secret_of-Errless (db_secret (some s)) = tt
secret_of-Errless _ = tt

module _ (p : Platform) (m : BackstageModel) where
  contribute_each-Errless :
      (rs : List Ref) (w : Workload)
      → HasInstaller w
      → Errless HasInstaller (contribute_each p m rs w)
  unfolding contribute_each
  contribute_each-Errless [] w e = e
  contribute_each-Errless (r ∷ rs) w e =
      Errless-bind HasInstaller (load m r) _ (load-Errless m r) λ o _ _.
        Errless-bind HasInstaller _ _ (contribute-Errless p o w e)
          λ w' _ e'. contribute_each-Errless rs w' e'

  add_db_secret-Errless :
      (w : Workload) → HasInstaller w → Errless HasInstaller (add_db_secret p m w)
  unfolding add_db_secret
  add_db_secret-Errless w e =
      Errless-option HasInstaller m.local_db_secret _ _ (λ _. e)
        λ q _. Errless-bind HasInstaller (load m q) _ (load-Errless m q) λ o _ _.
          Errless-bind HasInstaller (secret_of o) _ (secret_of-Errless o)
            λ s _ _. add_envs_to_first-Errless _ s.meta.name "" w e

  -- The whole of validate's work on the deployment.
  pub finish-Errless :
      (w : Workload) (spec : BackstageSpec)
      → HaveKeys (file_secrets spec)
      → HasInstaller w
      → Errless HasInstaller (finish p w spec m)
  unfolding finish
  finish-Errless w spec keys e =
      let external = m.external_config in
      Errless-bind HasInstaller _ _ (apply_application-Errless spec.application w e) λ w₁ _ e₁.
        Errless-bind HasInstaller _ _ (contribute_each-Errless m.runtime_objects w₁ e₁) λ w₂ _ e₂.
          Errless-bind HasInstaller _ _ (add_app_configs-Errless p spec w₂ external e₂) λ w₃ _ e₃.
            Errless-bind HasInstaller _ _ (add_config_map_files-Errless p spec w₃ external e₃)
              λ w₄ _ e₄.
                Errless-bind HasInstaller _ _ (add_config_map_envs-Errless p spec w₄ external e₄)
                  λ w₅ _ e₅.
                    Errless-bind HasInstaller _ _ (add_secret_files-Errless p spec w₅ keys e₅)
                      λ w₆ _ e₆.
                        Errless-bind HasInstaller _ _ (add_secret_envs-Errless p spec w₆ e₆)
                          λ w₇ _ e₇.
                            Errless-bind HasInstaller _ _
                              (add_dynamic_plugins-Errless p spec w₇ external e₇)
                              λ w₈ _ e₈. add_db_secret-Errless w₈ e₈
