-- ===== src/Model/BackstageRoute.antt =====
-- pkg/model/route.go: the OpenShift Route to the Backstage service.
pub mod FromSpec
use janus_idp_operator.Prelude.{
  String, Bool, true, false, not, ◌&&◌, ◌||◌, Option, none, some, is_some, non_empty, if◌then◌else◌,
}
use janus_idp_operator.GoError.{Outcome, ok, panic, ◌>>=◌}
use janus_idp_operator.Kube.{Route, TlsConfig, Service, zero_route}
use janus_idp_operator.Api.{
  RouteSpec, Tls, BackstageSpec, route_of, is_route_enabled, is_route_empty,
}
use janus_idp_operator.Utils.{generate_runtime_object_name}
use janus_idp_operator.Model.Objects.{RuntimeObject, backstage_route, backstage_service}
use janus_idp_operator.Model.State.{BackstageModel, Ref, load, store, set_runtime_object}

unfoldable pub route_name : String → String
unfolding generate_runtime_object_name
route_name backstage_name = generate_runtime_object_name backstage_name "backstage"

abbrev pub or_keep : String → String → String
or_keep specified old = if non_empty specified then specified else old

-- The TLS part of setRoute. Its second case is the code after the early return, for a route that
-- has a TLS configuration already.
unfoldable pub set_tls : Tls → Option TlsConfig → TlsConfig
set_tls t none = record {
  termination = "edge";
  insecure_policy = "Redirect";
  certificate = t.certificate;
  key = t.key;
  ca_certificate = t.ca_certificate;
  external_certificate = some t.external_certificate_secret_name;
}
set_tls t (some c) = record c {
  certificate = or_keep t.certificate c.certificate;
  key = or_keep t.key c.key;
  ca_certificate = or_keep t.ca_certificate c.ca_certificate;
  external_certificate =
      if non_empty t.external_certificate_secret_name
      then some t.external_certificate_secret_name
      else c.external_certificate;
}

-- The new value of b.route: it starts from an empty Route, whatever b.route was.
unfoldable pub set_route : RouteSpec → Route
unfolding set_tls
set_route specified =
    let r : Route = record zero_route {
      host = or_keep specified.host zero_route.host;
      subdomain = or_keep specified.subdomain zero_route.subdomain;
    } in
    elim specified.tls [ none ↦ r | some t ↦ record r { tls = some (set_tls t r.tls) } ]

-- b.route after the lines "load from spec".
abbrev pub load_from_spec : Option RouteSpec → Option Route → Option Route
load_from_spec none b = b
load_from_spec (some specified) b =
    if not (is_route_empty specified) then some (set_route specified) else b

unfoldable pub add_to_model :
    Option Route → Ref → BackstageSpec → BackstageModel → Outcome (Bool × BackstageModel)
unfolding set_runtime_object is_route_enabled is_route_empty set_route
add_to_model b r spec m =
    if (not (is_some b) && not (is_route_enabled spec)) || not m.is_openshift
    then ok (false, m)
    else (let o =
          backstage_route (if is_route_enabled spec then load_from_spec (route_of spec) b else b) in
        ok (true, set_runtime_object r o (record (store r o m) { route_ref = some r })))

-- model.backstageService.service
abbrev pub service_of : RuntimeObject → Outcome Service
service_of (backstage_service (some s)) = ok s
service_of _ = panic

unfoldable pub validate : Option Route → Ref → BackstageModel → Outcome BackstageModel
unfolding load
validate b r m = elim m.backstage_service_ref [
  | none ↦ panic
  | some q ↦ do
    o ← load m q
    s ← service_of o
    elim b [
      | none ↦ panic
      | some x ↦ ok (store r (backstage_route (some (record x { to_name = s.meta.name }))) m)
    ]
]

unfoldable pub set_meta_info : Option Route → String → Outcome (Option Route)
unfolding route_name
set_meta_info none backstage_name = panic
set_meta_info (some x) backstage_name =
    ok (some (record x { meta = record x.meta { name = route_name backstage_name } }))
