-- ===== src/Model/Deployment/FromApplication.antt =====
-- What the spec's application makes of the deployment.
use mathlib.Core.List.{append_assoc, append-nil}
use janus_idp_operator.Prelude.{
  String, ℤ, Option, none, some, List, [], ◌∷◌, ◌++◌, ◌≡◌, refl, sym, ◌∙◌, ap, map,
}
use janus_idp_operator.GoError.{ok}
use janus_idp_operator.Kube.{Container, EnvVar, Workload}
use janus_idp_operator.Api.{Application, Env, ExtraEnvs}
use janus_idp_operator.Model.DbStatefulSet.{set_image_of}
use janus_idp_operator.Model.Pods.{pod_of, with_pod, with_containers, change_container}
use janus_idp_operator.Model.Deployment.{
  apply_application, add_extra_envs, add_envs, add_container_env_var, append_env, set_image,
  visit_containers, set_replicas, set_image_pull_secrets,
}

abbrev variable : Env → EnvVar
variable e = record { name = e.name; value = e.value; value_from = none }

-- The variables of the spec, as a container has them.
abbrev variables : Option ExtraEnvs → List EnvVar
variables none = []
variables (some x) = map variable x.envs

-- The containers with the spec's image, where it names one.
abbrev imaged : Option String → Container → Container
imaged none c = c
imaged (some image) c = set_image_of image c

abbrev imaged_each : Option String → List Container → List Container
imaged_each none cs = cs
imaged_each (some image) cs = map (set_image_of image) cs

abbrev given {ℓ} : {A : Type ℓ} → Option A → Option A → Option A
given none old = old
given (some a) old = some a

-- The workload that the application asks for, whose containers are `c` and `cs`.
abbrev pub wanted : Application → Workload → Container → List Container → Workload
wanted app w c cs = record w {
  replicas = given app.replicas w.replicas;
  template = record w.template {
    spec = record w.template.spec {
      init_containers = imaged_each app.image w.template.spec.init_containers;
      containers =
          record (imaged app.image c) { env = (imaged app.image c).env ++ variables app.extra_envs }
          ∷ imaged_each app.image cs;
      ephemeral_containers = imaged_each app.image w.template.spec.ephemeral_containers;
      image_pull_secrets = w.template.spec.image_pull_secrets ++ app.image_pull_secrets;
    };
  };
}

abbrev with_first : Workload → Container → List Container → Workload
with_first w c cs = with_pod w (with_containers (pod_of w) (c ∷ cs))

add_envs_lem :
    (es : List Env) (w : Workload) (c : Container) (cs : List Container)
    → add_envs es (with_first w c cs)
      ≡ ok (with_first w (record c { env = c.env ++ map variable es }) cs)
unfolding add_envs add_container_env_var change_container
add_envs_lem [] w c cs =
    ap (λ l. ok (with_first w (record c { env = l }) cs)) (sym (append-nil c.env))
add_envs_lem (e ∷ es) w c cs =
    add_envs_lem es w (append_env e c) cs
    ∙ ap (λ l. ok (with_first w (record c { env = l }) cs))
        (append_assoc c.env (variable e ∷ []) (map variable es))

add_extra_envs_lem :
    (x : Option ExtraEnvs) (w : Workload) (c : Container) (cs : List Container)
    → add_extra_envs x (with_first w c cs)
      ≡ ok (with_first w (record c { env = c.env ++ variables x }) cs)
unfolding add_extra_envs
add_extra_envs_lem none w c cs =
    ap (λ l. ok (with_first w (record c { env = l }) cs)) (sym (append-nil c.env))
add_extra_envs_lem (some x) w c cs = add_envs_lem x.envs w c cs

set_image_pull_secrets_lem :
    (ps : List String) (w : Workload)
    → set_image_pull_secrets ps w
      ≡ with_pod w (record (pod_of w) { image_pull_secrets = (pod_of w).image_pull_secrets ++ ps })
unfolding set_image_pull_secrets
set_image_pull_secrets_lem [] w =
    ap (λ l. with_pod w (record (pod_of w) { image_pull_secrets = l }))
      (sym (append-nil (pod_of w).image_pull_secrets))
set_image_pull_secrets_lem (p ∷ ps) w =
    set_image_pull_secrets_lem ps _
    ∙ ap (λ l. with_pod w (record (pod_of w) { image_pull_secrets = l }))
        (append_assoc (pod_of w).image_pull_secrets (p ∷ []) ps)

set_replicas_lem :
    (n : Option ℤ) (w : Workload) → set_replicas n w ≡ record w { replicas = given n w.replicas }
unfolding set_replicas
set_replicas_lem none w = refl
set_replicas_lem (some n) w = refl

set_image_lem :
    (image : Option String) (w : Workload) (c : Container) (cs : List Container)
    → set_image image (with_first w c cs)
      ≡ with_first
          (with_pod w (record (pod_of w) {
            init_containers = imaged_each image (pod_of w).init_containers;
            ephemeral_containers = imaged_each image (pod_of w).ephemeral_containers;
          }))
          (imaged image c)
          (imaged_each image cs)
unfolding set_image visit_containers
set_image_lem none w c cs = refl
set_image_lem (some image) w c cs = refl

-- On a deployment with a container, the first block of validate makes just what the application
-- asks for: its replicas, its image in every container, init containers included, its pull secrets
-- after those that are there, and its variables after those of the first container; what it leaves
-- out, and all else, stays as it is.
pub apply_application_lem :
    (app : Application) (w : Workload) (c : Container) (cs : List Container)
    → w.template.spec.containers ≡ c ∷ cs
    → apply_application (some app) w ≡ ok (wanted app w c cs)
unfolding apply_application
apply_application_lem app w c cs e =
    ap (λ l. apply_application (some app) (with_pod w (with_containers (pod_of w) l))) e
    ∙ ap (λ x. add_extra_envs app.extra_envs (set_image app.image x))
        (ap (λ x. set_image_pull_secrets app.image_pull_secrets x)
            (set_replicas_lem app.replicas (with_first w c cs))
          ∙ set_image_pull_secrets_lem app.image_pull_secrets
              (record (with_first w c cs) { replicas = given app.replicas w.replicas }))
    ∙ ap (λ x. add_extra_envs app.extra_envs x) (set_image_lem app.image with_secrets c cs)
    ∙ add_extra_envs_lem app.extra_envs with_images (imaged app.image c) (imaged_each app.image cs)
  where
    with_secrets : Workload
    with_secrets =
        with_pod (record w { replicas = given app.replicas w.replicas })
          (record (pod_of w) {
            image_pull_secrets = (pod_of w).image_pull_secrets ++ app.image_pull_secrets;
          })

    with_images : Workload
    with_images = with_pod with_secrets (record (pod_of with_secrets) {
      init_containers = imaged_each app.image (pod_of w).init_containers;
      ephemeral_containers = imaged_each app.image (pod_of w).ephemeral_containers;
    })
