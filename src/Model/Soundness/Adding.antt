-- ===== src/Model/Soundness/Adding.antt =====
-- The first phase of InitObjects: addToModel of a sound object, or of one with no Kubernetes object.
use janus_idp_operator.Prelude.{
  ℕ, Bool, true, false, ◌||◌, Option, some, is_some, ◌≡◌, refl, arith, same,
}
use janus_idp_operator.Model.Objects.{RuntimeObject}
use janus_idp_operator.Model.State.{Ref, BackstageModel, set_runtime_object}
use janus_idp_operator.Model.Soundness.{is_sound, is_live, is_db_object, points, IsSound}
use janus_idp_operator.Model.Soundness.Heaps.{Follows, set_runtime_object-Follows}
use janus_idp_operator.Model.Soundness.Keeping.{Keeps-refl}
use janus_idp_operator.Model.Soundness.Validation.{Follows-refl}

-- The pointer that the class with that code sets has been set. Those to the database's objects are
-- set where the database is enabled.
pub record Registered (c : ℕ) (m : BackstageModel) : Type 0 where
  pub deployment : c ≡ 6 → is_some m.backstage_deployment_ref ≡ true
  pub service : c ≡ 11 → is_some m.backstage_service_ref ≡ true
  pub stateful_set : c ≡ 5 → m.local_db_enabled ≡ true → is_some m.local_db_stateful_set ≡ true
  pub db_service : c ≡ 4 → m.local_db_enabled ≡ true → is_some m.local_db_service ≡ true

-- The other classes set no pointer that a later phase follows unasked.
pub others :
    (c : ℕ) (m : BackstageModel)
    → (same c 4 || same c 5 || same c 6 || same c 11) ≡ false
    → Registered c m
others c m e = record {
  deployment = λ q. ground (arith, e, q);
  service = λ q. ground (arith, e, q);
  stateful_set = λ q l. ground (arith, e, q);
  db_service = λ q l. ground (arith, e, q);
}

-- Without a local database its objects set no pointer.
pub local_db_off :
    (c : ℕ) (m : BackstageModel)
    → m.local_db_enabled ≡ false
    → (same c 6 || same c 11) ≡ false
    → Registered c m
local_db_off c m off e = record {
  deployment = λ q. ground (arith, e, q);
  service = λ q. ground (arith, e, q);
  stateful_set = λ q l. cc (off, l);
  db_service = λ q l. cc (off, l);
}

-- A class whose pointer is set.
pub deployment_is_set :
    (m : BackstageModel) → is_some m.backstage_deployment_ref ≡ true → Registered 6 m
deployment_is_set m e = record {
  deployment = λ q. e;
  service = λ q. cc;
  stateful_set = λ q. cc;
  db_service = λ q. cc;
}

pub service_is_set : (m : BackstageModel) → is_some m.backstage_service_ref ≡ true → Registered 11 m
service_is_set m e = record {
  deployment = λ q. cc;
  service = λ q. e;
  stateful_set = λ q. cc;
  db_service = λ q. cc;
}

pub stateful_set_is_set :
    (m : BackstageModel) → is_some m.local_db_stateful_set ≡ true → Registered 5 m
stateful_set_is_set m e = record {
  deployment = λ q. cc;
  service = λ q. cc;
  stateful_set = λ q l. e;
  db_service = λ q. cc;
}

pub db_service_is_set : (m : BackstageModel) → is_some m.local_db_service ≡ true → Registered 4 m
db_service_is_set m e = record {
  deployment = λ q. cc;
  service = λ q. cc;
  stateful_set = λ q. cc;
  db_service = λ q l. e;
}

-- After addToModel the model is sound, and the object in the slice is, if it was added.
pub record Added (r : Ref) (c : ℕ) (m : BackstageModel) (x : Bool × BackstageModel) : Type 0 where
  pub follows : Follows m x.1
  pub live : x.0 ≡ true → is_live (x.1.heap r) ≡ true
  pub registered : Registered c x.1

pub skipped :
    (r : Ref) (c : ℕ) (m : BackstageModel) → IsSound m → Registered c m → Added r c m (false, m)
skipped r c m s g = record { follows = Follows-refl m s; live = λ e. cc; registered = g }

-- A class that sets no pointer.
pub listed :
    (r : Ref) (o : RuntimeObject) (c : ℕ) (m : BackstageModel)
    → m.heap r ≡ some o
    → is_sound o ≡ true
    → is_db_object o ≡ false
    → IsSound m
    → (same c 4 || same c 5 || same c 6 || same c 11) ≡ false
    → Added r c m (true, set_runtime_object r o m)
unfolding set_runtime_object
listed r o c m e live plain s other = record {
  follows = set_runtime_object-Follows m r o e (cc (e, live)) (λ _. rw (e, live, plain) refl) s;
  live = λ _. cc (e, live);
  registered = others c (set_runtime_object r o m) other;
}

-- A model whose pointers are replaced by others that lead to sound objects.
pub repointed :
    (m : BackstageModel) (deployment service stateful_set db_service db_secret route : Option Ref)
    → IsSound m
    → points m.heap 6 deployment ≡ true
    → points m.heap 11 service ≡ true
    → points m.heap 5 stateful_set ≡ true
    → points m.heap 4 db_service ≡ true
    → points m.heap 3 db_secret ≡ true
    → points m.heap 8 route ≡ true
    → (is_some m.backstage_deployment_ref ≡ true → is_some deployment ≡ true)
    → (is_some m.backstage_service_ref ≡ true → is_some service ≡ true)
    → (is_some m.local_db_stateful_set ≡ true → is_some stateful_set ≡ true)
    → (is_some m.local_db_service ≡ true → is_some db_service ≡ true)
    → Follows m (record m {
      backstage_deployment_ref = deployment;
      backstage_service_ref = service;
      local_db_stateful_set = stateful_set;
      local_db_service = db_service;
      local_db_secret = db_secret;
      route_ref = route;
    })
repointed m d v t u x y s pd pv pt pu px py kd kv kt ku = record {
  sound = record {
    fresh = s.fresh;
    deployment = pd;
    service = pv;
    stateful_set = pt;
    db_service = pu;
    db_secret = px;
    route = py;
    objects = s.objects;
    plain = s.plain;
    distinct = s.distinct;
  };
  extends = record {
    cells = Keeps-refl m.heap;
    local_db = refl;
    openshift = refl;
    external = refl;
    deployment = kd;
    service = kv;
    stateful_set = kt;
    db_service = ku;
  };
}
