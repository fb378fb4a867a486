-- ===== src/Model/Soundness/Application.antt =====
-- What validate takes from the spec's application keeps the deployment complete.
use janus_idp_operator.Prelude.{String, Option, none, some, List, [], ◌∷◌, ℤ, List-cases, inl, inr}
use janus_idp_operator.GoError.{Safe}
use janus_idp_operator.GoError.Safety.{Safe-bind}
use janus_idp_operator.Kube.{Workload}
use janus_idp_operator.Api.{Application, Env, ExtraEnvs}
use janus_idp_operator.Model.Pods.{pod_of}
use janus_idp_operator.Model.Deployment.{
  apply_application, add_extra_envs, add_envs, add_container_env_var, set_image, visit_containers,
  set_replicas, set_image_pull_secrets,
}
use janus_idp_operator.Model.Soundness.Workloads.{IsComplete, has_selector, change_container-Safe}

-- The loop over the spec's variables.
add_envs-Safe : (es : List Env) (w : Workload) → IsComplete w → Safe IsComplete (add_envs es w)
unfolding add_envs add_container_env_var
add_envs-Safe [] w e = e
add_envs-Safe (x ∷ es) w e =
    Safe-bind IsComplete _ _ (change_container-Safe _ w e) λ w' e'. add_envs-Safe es w' e'

add_extra_envs-Safe :
    (x : Option ExtraEnvs) (w : Workload) → IsComplete w → Safe IsComplete (add_extra_envs x w)
unfolding add_extra_envs
add_extra_envs-Safe none w e = e
add_extra_envs-Safe (some x) w e = add_envs-Safe x.envs w e

set_replicas-IsComplete :
    (n : Option ℤ) (w : Workload) → IsComplete w → IsComplete (set_replicas n w)
unfolding set_replicas
set_replicas-IsComplete none w e = e
set_replicas-IsComplete (some n) w e = e

set_image_pull_secrets-IsComplete :
    (ps : List String) (w : Workload) → IsComplete w → IsComplete (set_image_pull_secrets ps w)
unfolding set_image_pull_secrets
set_image_pull_secrets-IsComplete [] w e = e
set_image_pull_secrets-IsComplete (p ∷ ps) w e = set_image_pull_secrets-IsComplete ps _ e

set_image-IsComplete :
    (image : Option String) (w : Workload) → IsComplete w → IsComplete (set_image image w)
unfolding set_image visit_containers
set_image-IsComplete none w e = e
set_image-IsComplete (some image) w e = elim (List-cases (pod_of w).containers) [
  | inl n ↦ cc (e, n)
  | inr (c, cs, n) ↦ rw n (has_selector w e)
]

pub apply_application-Safe :
    (app : Option Application) (w : Workload)
    → IsComplete w
    → Safe IsComplete (apply_application app w)
unfolding apply_application
apply_application-Safe none w e = e
apply_application-Safe (some app) w e = add_extra_envs-Safe app.extra_envs _ (
    set_image-IsComplete app.image _ (
      set_image_pull_secrets-IsComplete app.image_pull_secrets _
        (set_replicas-IsComplete app.replicas w e)))
