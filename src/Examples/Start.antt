-- ===== src/Examples/Start.antt =====
-- A start of the process.
use janus_idp_operator.GoError.{GoError, errorf}
use janus_idp_operator.Utils.{has_route_group}
use janus_idp_operator.Main.{Call, start, Host, default_flags, main}
use janus_idp_operator.Main.Ending.{plan, Ends, main-Ends}
use janus_idp_operator.Prelude.{none, some, [], ◌∷◌, Option}

abbrev failing_start : Call → Option GoError
failing_start start = some (errorf "problem running manager")
failing_start _ = none

abbrev sample_host : Host
sample_host = record { answer = failing_start; api_groups = "apps" ∷ "route.openshift.io" ∷ [] }

main-Ends_example :
    Ends sample_host
      (plan default_flags (has_route_group sample_host.api_groups))
      (main sample_host default_flags [])
main-Ends_example = main-Ends sample_host default_flags
