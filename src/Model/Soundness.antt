-- ===== src/Model/Soundness.antt =====
-- When an object of the model is complete enough to be worked with, and when a whole model is: what
-- its pointers and its slice hold.
pub mod Keeping
pub mod Heaps
pub mod Cells
pub mod Workloads
pub mod Contributions
pub mod Application
pub mod Finish
pub mod Validation
pub mod Adding
pub mod Holders
pub mod Owners
pub mod Registration
pub mod MetaInfo
pub mod Loading
pub mod Building
pub mod Phases
pub mod Whole
pub mod Slices
use janus_idp_operator.Prelude.{
  ℕ, ◌≤◌, Bool, true, false, not, ◌&&◌, Option, none, some, is_some, List, [], ◌∷◌, ◌≡◌, same, ℤ,
  All,
}
use janus_idp_operator.Kube.{Container, Workload}
use janus_idp_operator.Model.Objects.{
  RuntimeObject, type_code, app_config, config_map_envs, config_map_files, db_secret, db_service,
  db_stateful_set, backstage_deployment, dynamic_plugins, backstage_route, secret_envs,
  secret_files, backstage_service,
}
use janus_idp_operator.Model.State.{Heap, Ref, BackstageModel}
use janus_idp_operator.Model.State.Classes.{IsDistinct}

abbrev pub has_any {ℓ} : {A : Type ℓ} → List A → Bool
has_any [] = false
has_any (x ∷ xs) = true

-- A workload that has a container and a selector.
abbrev pub is_complete : Workload → Bool
is_complete w = has_any w.template.spec.containers && is_some w.selector

-- The object is not nil; a workload is complete, and the service of the database has a port.
abbrev pub is_sound : RuntimeObject → Bool
is_sound (app_config b) = is_some b.object
is_sound (config_map_envs b) = is_some b.object
is_sound (config_map_files b) = is_some b.object
is_sound (db_secret b) = is_some b
is_sound (db_service none) = false
is_sound (db_service (some o)) = has_any o.ports
is_sound (db_stateful_set none) = false
is_sound (db_stateful_set (some w)) = is_complete w
is_sound (backstage_deployment none) = false
is_sound (backstage_deployment (some w)) = is_complete w
is_sound (dynamic_plugins b) = is_some b
is_sound (backstage_route b) = is_some b
is_sound (secret_envs b) = is_some b.object
is_sound (secret_files b) = is_some b.object
is_sound (backstage_service b) = is_some b

-- The same of an object that may be nil.
abbrev pub is_sound_or_nil : RuntimeObject → Bool
is_sound_or_nil (db_service (some o)) = has_any o.ports
is_sound_or_nil (db_stateful_set (some w)) = is_complete w
is_sound_or_nil (backstage_deployment (some w)) = is_complete w
is_sound_or_nil _ = true

-- A cell that holds a sound object of the class with that code.
unfoldable pub is_typed : ℕ → Option RuntimeObject → Bool
unfolding type_code
is_typed c none = false
is_typed c (some o) = same (type_code o) c && is_sound o

-- A cell that holds a sound object of some class.
abbrev pub is_live : Option RuntimeObject → Bool
is_live none = false
is_live (some o) = is_sound o

-- An object of the local database.
abbrev pub is_db_object : RuntimeObject → Bool
is_db_object (db_secret b) = true
is_db_object (db_service b) = true
is_db_object (db_stateful_set b) = true
is_db_object _ = false

-- A cell that holds a sound object, and not one of the database's.
abbrev pub is_plain : Option RuntimeObject → Bool
is_plain none = false
is_plain (some o) = is_sound o && not (is_db_object o)

-- A pointer to an object of a class, or nil.
abbrev pub points : Heap → ℕ → Option Ref → Bool
points h c none = true
points h c (some r) = is_typed c (h r)

-- The pointers of a model lead to sound objects of their classes, the slice holds sound objects,
-- none of them the database's if that is disabled and no two of one class, and nothing has been
-- allocated beyond the next free address.
pub record IsSound (m : BackstageModel) : Type 0 where
  pub fresh : (q : Ref) → m.next ≤ q → m.heap q ≡ none
  pub deployment : points m.heap 6 m.backstage_deployment_ref ≡ true
  pub service : points m.heap 11 m.backstage_service_ref ≡ true
  pub stateful_set : points m.heap 5 m.local_db_stateful_set ≡ true
  pub db_service : points m.heap 4 m.local_db_service ≡ true
  pub db_secret : points m.heap 3 m.local_db_secret ≡ true
  pub route : points m.heap 8 m.route_ref ≡ true
  pub objects : All (λ r. is_live (m.heap r) ≡ true) m.runtime_objects
  pub plain : m.local_db_enabled ≡ false → All (λ r. is_plain (m.heap r) ≡ true) m.runtime_objects
  pub distinct : IsDistinct m
