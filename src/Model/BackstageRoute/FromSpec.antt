-- ===== src/Model/BackstageRoute/FromSpec.antt =====
-- Which route the model gets for a route in the spec.
use janus_idp_operator.Prelude.{
  Bool, true, false, ◌||◌, ◌==◌, none, some, ◌≡◌, ◌≢◌, ◌↔◌, refl, arith, eq_iff, if◌then◌else◌,
  same_refl,
}
use janus_idp_operator.GoError.{ok}
use janus_idp_operator.Kube.{Route, zero_meta}
use janus_idp_operator.Api.{RouteSpec, Tls, is_route_empty, tls_ne_zero}
use janus_idp_operator.Model.Objects.{RuntimeObject}
use janus_idp_operator.Model.State.{BackstageModel, Ref, load, store, set_runtime_object}

-- A route of the spec with a host, a subdomain and a TLS part that is not zero.
abbrev pub IsFull : RouteSpec → Type 0
IsFull r =
    (r.host ≢ "") × (r.subdomain ≢ "") × ((t : Tls) × (r.tls ≡ some t) × (tls_ne_zero t ≡ true))

-- IsRouteEmpty tells the opposite of its name: it holds of the full routes, and of no other.
pub is_route_empty_iff : (r : RouteSpec) → (is_route_empty r ≡ true) ↔ IsFull r
unfolding is_route_empty
is_route_empty_iff r = (
  λ h. (
    λ e. ground (arith, (eq_iff r.host "").1 e),
    λ e. ground (arith, (eq_iff r.subdomain "").1 e),
    ground arith,
  ),
  λ full.
      ground (arith, eq_iff r.host "", eq_iff r.subdomain "", full.0, full.1, full.2.1, full.2.2),
)

-- The route that is made of a route in the spec.
abbrev pub specified_route : RouteSpec → Route
specified_route specified = record {
  meta = zero_meta;
  host = specified.host;
  subdomain = specified.subdomain;
  to_name = "";
  tls = elim specified.tls [
    | none ↦ none
    | some t ↦ some (record {
      termination = "edge";
      insecure_policy = "Redirect";
      certificate = t.certificate;
      key = t.key;
      ca_certificate = t.ca_certificate;
      external_certificate = some t.external_certificate_secret_name;
    })
  ];
}

-- All three parts of the route are given.
abbrev pub is_full : RouteSpec → Bool
is_full specified =
    if specified.host == "" || specified.subdomain == ""
    then false
    else elim specified.tls [ none ↦ false | some t ↦ tls_ne_zero t ]

-- Reading back what was stored in the heap.
pub load-store :
    (r : Ref) (o o' : RuntimeObject) (m : BackstageModel)
    → load (set_runtime_object r o' (record (store r o m) { route_ref = some r })) r ≡ ok o
unfolding load set_runtime_object
load-store r o o' m = rw (load, same_refl r) refl
