-- ===== src/Model/Runtime/FullRoute.antt =====
-- A route of the spec with nothing left out, on a cluster with no default route.
use janus_idp_operator.Prelude.{Bool, true, none, some, ◌≡◌, arith}
use janus_idp_operator.GoError.{panic}
use janus_idp_operator.Api.{Backstage, RouteSpec, route_of, is_route_enabled}
use janus_idp_operator.Platform.{Platform}
use janus_idp_operator.Model.Objects.{backstage_route}
use janus_idp_operator.Model.State.{BackstageModel}
use janus_idp_operator.Model.BackstageRoute.FromSpec.{IsFull, is_route_empty_iff}
use janus_idp_operator.Model.Methods.{add_to_model, set_object_meta_info}
use janus_idp_operator.Model.Runtime.{add_object, set_meta_info_at, set_meta_info}

-- On OpenShift, if neither the default configuration nor the raw one has a route, a route in the
-- spec that is enabled and full makes the operator panic: the nil route is added to the model, and
-- is then given a name.
pub add_object-full_route :
    (p : Platform) (backstage : Backstage) (owns_runtime : Bool) (m : BackstageModel)
    (specified : RouteSpec)
    → route_of backstage.spec ≡ some specified
    → is_route_enabled backstage.spec ≡ true
    → IsFull specified
    → m.is_openshift ≡ true
    → add_object p backstage owns_runtime (backstage_route none) m ≡ panic
unfolding add_object add_to_model set_meta_info_at set_meta_info set_object_meta_info
add_object-full_route p backstage owns_runtime m specified e enabled full openshift =
    ground (arith, (is_route_empty_iff specified).1 full)
