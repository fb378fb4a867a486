-- ===== src/Main.antt =====
-- main.go and SetupWithManager of controllers/backstage_controller.go: the start of the operator's
-- process.
pub mod Ending
use janus_idp_operator.Prelude.{
  String, ℕ, Bool, true, false, Option, none, some, List, [], ◌∷◌, ◌++◌,
}
use janus_idp_operator.GoError.{GoError, Outcome, ok, err}
use janus_idp_operator.Utils.{has_route_group}
use janus_idp_operator.Controller.Exec.{Exec, pure, ◌>>=◌, ◌>>◌}
use janus_idp_operator.Controller.Reconcile.{Reconciler}

-- The command line after flag.Parse. The flags of the logger are left out.
pub record Flags : Type 0 where
  pub metrics_addr : String
  pub probe_addr : String
  pub enable_leader_election : Bool
  pub own_runtime : Bool

-- The flags of an empty command line.
abbrev pub default_flags : Flags
default_flags = record {
  metrics_addr = ":8080";
  probe_addr = ":8081";
  enable_leader_election = false;
  own_runtime = true;
}

-- What main sets in ctrl.Options, beside the scheme.
pub record ManagerOptions : Type 0 where
  pub metrics_bind_address : String
  pub webhook_port : ℕ
  pub health_probe_bind_address : String
  pub leader_election : Bool
  pub leader_election_id : String

-- A controller to be: the kind that it reconciles, and the kinds that it watches beside it.
pub record Builder : Type 0 where
  pub for_kind : String
  pub owned_kinds : List String

-- The calls of the libraries that may fail, one for each place in the code.
pub data Call : Type 0 where
  get_config : Call
  new_manager : ManagerOptions → Call
  get_discovery_config : Call
  new_discovery_client : Call
  server_groups : Call
  -- builder.Complete(r)
  complete : Builder → Reconciler → Call
  add_healthz_check : (name : String) → Call
  add_readyz_check : (name : String) → Call
  start : Call

-- What the calls return: an error or none, and the names of the API groups. GetConfigOrDie returns
-- a configuration or ends the process, which counts as an error of it.
pub record Host : Type 0 where
  pub answer : Call → Option GoError
  pub api_groups : List String

unfoldable pub manager_options : Flags → ManagerOptions
manager_options flags = record {
  metrics_bind_address = flags.metrics_addr;
  webhook_port = 9443;
  health_probe_bind_address = flags.probe_addr;
  leader_election = flags.enable_leader_election;
  leader_election_id = "06bdbdd5.rhdh.redhat.com";
}

-- The fields of BackstageReconciler that main sets; Namespace keeps its zero value.
unfoldable pub new_reconciler : Flags → Bool → Reconciler
new_reconciler flags is_openshift = record {
  owns_runtime = flags.own_runtime;
  namespace = "";
  is_openshift = is_openshift;
}

module _ (host : Host) where
  abbrev pub answered_by : Option GoError → Outcome (Unit {0})
  answered_by none = ok tt
  answered_by (some e) = err e

  -- One call, after the calls so far. An error is logged, and the process exits with status 1.
  unfoldable pub call : Call → Exec (List Call) (Unit {0})
  call c calls = (answered_by (host.answer c), calls ++ c ∷ [])

  -- The function isOpenshift of main.go, with the loop over the groups that it shares with that of
  -- pkg/utils.
  unfoldable pub is_openshift : Exec (List Call) Bool
  unfolding call has_route_group
  is_openshift = do
    call get_discovery_config
    call new_discovery_client
    call server_groups
    pure (has_route_group host.api_groups)

  -- SetupWithManager of controllers/backstage_controller.go: its calls of Owns are commented out.
  unfoldable pub setup_with_manager : Reconciler → Exec (List Call) (Unit {0})
  unfolding call
  setup_with_manager r = call (complete (record { for_kind = "Backstage"; owned_kinds = [] }) r)

  unfoldable pub main : Flags → Exec (List Call) (Unit {0})
  unfolding call is_openshift setup_with_manager manager_options new_reconciler
  main flags = do
    call get_config
    call (new_manager (manager_options flags))
    openshift ← is_openshift
    setup_with_manager (new_reconciler flags openshift)
    call (add_healthz_check "healthz")
    call (add_readyz_check "readyz")
    call start
