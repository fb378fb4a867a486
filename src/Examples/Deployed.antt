-- ===== src/Examples/Deployed.antt =====
-- A reconciliation that succeeds, on a cluster that accepts what it is sent.
use janus_idp_operator.Kube.{KubeObject, deployment}
use janus_idp_operator.Api.{is_local_db_enabled}
use janus_idp_operator.Utils.{read_yaml, read_yaml_file}
use janus_idp_operator.Model.Objects.{RuntimeObject, empty_object}
use janus_idp_operator.Model.Registry.{ObjectConfig}
use janus_idp_operator.Model.Soundness.Validation.{IsFinished}
use janus_idp_operator.Model.State.{BackstageModel}
use janus_idp_operator.StringMap.{lookup}
use janus_idp_operator.Model.DynamicPlugins.{dynamic_plugins_init_container}
use janus_idp_operator.Model.Returns.MetaInfo.{installer_of}
use janus_idp_operator.Model.Returns.Provided.{IsServed, IsProvided, IsEquipped}
use janus_idp_operator.Model.Returns.Whole.{init_objects-Gives}
use janus_idp_operator.Model.Runtime.{init_objects}
use janus_idp_operator.GoError.{GoError, Reply, failed, external, not_found, has_reason, Gives, ok}
use janus_idp_operator.Controller.Requests.{History, get_backstage, update_status}
use janus_idp_operator.Controller.Preprocess.{no_config}
use janus_idp_operator.Controller.Preprocess.Wanted.{SpecThere}
use janus_idp_operator.Controller.Apply.Accepted.{Accepts}
use janus_idp_operator.Controller.Reconcile.Achieves.{IsAchieved, reconcile_found-Achieves}
use janus_idp_operator.Controller.Reconcile.Deploys.{
  Configures-begin, reconcile_found-ok, reconcile-Deploys,
}
use janus_idp_operator.Controller.Reconcile.{reconcile, reconcile_found, begin, Session}
use janus_idp_operator.Examples.{
  sample_platform, sample_backstage, sample_spec, sample_reconciler, sample_request,
  accepting_server, sample_of, sample-VisitsAll, sample-SetsCondition, sample_config_map,
}
use janus_idp_operator.Prelude.{true, none, [], ◌∷◌, ◌≡◌, refl, subst, ◌++◌}
use janus_idp_operator.Examples.Sound.{sample-AreRead, of_each, sample-IsConfigured}

missing :
    (e : GoError)
    → ◌≡◌ {A = Reply KubeObject} (failed (external not_found "not found")) (failed e)
    → external not_found "not found" ≡ e
missing e q = cc q

accepting-Accepts : Accepts accepting_server
unfolding has_reason
accepting-Accepts = record {
  writes = λ h r. refl;
  reads = λ h k n e q. subst (λ x. has_reason not_found x ≡ true) (missing e q) refl;
}

sample-SpecThere : SpecThere (λ name. sample_config_map name) accepting_server "team" sample_spec
sample-SpecThere = record {
  raw = tt;
  app_configs = (((λ h. refl), refl), tt);
  extra_files = tt;
  extra_envs = tt;
  plugins = λ e. ((λ h. refl), refl);
}

abbrev sample_history : History
sample_history = get_backstage sample_request ∷ []

installer_of-sample_of : (o : KubeObject) → installer_of (sample_of o) ≡ true
unfolding dynamic_plugins_init_container
installer_of-sample_of (deployment w) = refl
installer_of-sample_of _ = refl

sample_of-IsEquipped : (o : RuntimeObject) → IsEquipped (sample_of (empty_object o))
sample_of-IsEquipped o = installer_of-sample_of (empty_object o)

sample_of-sample_of-IsEquipped :
    (o : RuntimeObject) → IsEquipped (sample_of (sample_of (empty_object o)))
sample_of-sample_of-IsEquipped o = installer_of-sample_of (sample_of (empty_object o))

served : (conf : ObjectConfig) → IsServed sample_platform true (λ key. none) conf
unfolding read_yaml_file read_yaml
served conf = record {
  readable = refl;
  decodes = λ document e. cc e;
  given = λ _. refl;
  equipped =
      sample-AreRead IsEquipped (λ key. none) conf sample_of-IsEquipped
        sample_of-sample_of-IsEquipped λ document e. cc e;
}

sample-IsProvided : IsProvided sample_platform sample_spec (λ key. none)
unfolding is_local_db_enabled
sample-IsProvided = record { classes = of_each _ served; keys = tt }

reconcile-Deploys_example :
    (t : Session) × IsAchieved sample_platform accepting_server sample_reconciler
      (begin sample_platform sample_backstage)
      sample_history
      t
    × (reconcile sample_platform accepting_server sample_reconciler sample_request []
        ≡ (ok tt, t.1 ++ update_status t.0 ∷ []))
reconcile-Deploys_example =
    reconcile-Deploys sample_platform accepting_server sample_reconciler accepting-Accepts
      sample_request (λ name. sample_config_map name) sample_backstage [] refl refl sample-VisitsAll
      sample-SetsCondition sample-SpecThere sample-IsConfigured sample-IsProvided

reconcile_found-Achieves_example :
    (t : Session) × IsAchieved sample_platform accepting_server sample_reconciler
      (begin sample_platform sample_backstage)
      sample_history
      t
    × ((reconcile_found sample_platform accepting_server sample_reconciler sample_backstage
          sample_history).1
        ≡ t.1 ++ update_status t.0 ∷ [])
reconcile_found-Achieves_example =
    reconcile_found-Achieves sample_platform accepting_server sample_reconciler sample_backstage
      sample_history sample-SetsCondition
      (Configures-begin sample_platform accepting_server sample_reconciler
        (λ name. sample_config_map name) sample_backstage sample_history sample-VisitsAll
        sample-SpecThere sample-IsConfigured)
      (reconcile_found-ok sample_platform accepting_server sample_reconciler accepting-Accepts
        (λ name. sample_config_map name) sample_backstage sample_history sample-VisitsAll
        sample-SpecThere sample-IsConfigured sample-IsProvided)

init_objects-Gives_example :
    Gives
      (λ (m : BackstageModel).
        IsFinished m × (m.local_db_enabled ≡ is_local_db_enabled sample_spec))
      (init_objects sample_platform sample_backstage no_config true true)
unfolding lookup
init_objects-Gives_example =
    init_objects-Gives sample_platform sample_backstage no_config true true sample-IsConfigured
      sample-IsProvided
