-- ===== src/Model/State.antt =====
-- BackstageModel and ExternalConfig (pkg/model/runtime.go). Runtime objects are shared by pointers:
-- an object is a cell of the heap, and the model's fields and list hold addresses.
pub mod Classes
use janus_idp_operator.Prelude.{
  String, ℕ, suc, Bool, false, Option, none, some, List, [], ◌∷◌, same, if◌then◌else◌,
}
use janus_idp_operator.StringMap.{StringMap}
use janus_idp_operator.GoError.{Outcome, ok, panic}
use janus_idp_operator.Kube.{ConfigMap}
use janus_idp_operator.Model.Objects.{RuntimeObject, same_type}

pub record ExternalConfig : Type 0 where
  pub raw_config : StringMap String
  pub app_configs : StringMap ConfigMap
  pub extra_file_config_maps : StringMap ConfigMap
  pub extra_env_config_maps : StringMap ConfigMap
  pub dynamic_plugins : ConfigMap

abbrev pub Ref : Type 0
Ref = ℕ

abbrev pub Heap : Type 0
Heap = Ref → Option RuntimeObject

-- The model, with the heap that its addresses stand for and the next free address.
pub record BackstageModel : Type 0 where
  pub local_db_enabled : Bool
  pub is_openshift : Bool
  pub backstage_deployment_ref : Option Ref
  pub backstage_service_ref : Option Ref
  pub local_db_stateful_set : Option Ref
  pub local_db_service : Option Ref
  pub local_db_secret : Option Ref
  pub route_ref : Option Ref
  pub runtime_objects : List Ref
  pub external_config : ExternalConfig
  pub heap : Heap
  pub next : Ref

abbrev pub write : Ref → RuntimeObject → Heap → Heap
write r o h q = if same r q then some o else h q

abbrev pub store : Ref → RuntimeObject → BackstageModel → BackstageModel
store r o m = record m { heap = write r o m.heap }

-- A new cell: &Class{…}
abbrev pub alloc : RuntimeObject → BackstageModel → BackstageModel
alloc o m = record m { heap = write m.next o m.heap; next = suc m.next }

-- Reading through a pointer that is nil is a panic.
unfoldable pub load : BackstageModel → Ref → Outcome RuntimeObject
load m r = elim (m.heap r) [ none ↦ panic | some o ↦ ok o ]

abbrev pub same_type_at : Option RuntimeObject → RuntimeObject → Bool
same_type_at none o = false
same_type_at (some q) o = same_type q o

-- The loop of setRuntimeObject over the slice: the entry of the object's class is replaced, or the
-- object is appended.
unfoldable pub replace_or_append : Heap → RuntimeObject → Ref → List Ref → List Ref
replace_or_append h o r [] = r ∷ []
replace_or_append h o r (q ∷ qs) =
    if same_type_at (h q) o then r ∷ qs else q ∷ replace_or_append h o r qs

unfoldable pub set_runtime_object : Ref → RuntimeObject → BackstageModel → BackstageModel
unfolding replace_or_append
set_runtime_object r o m = record m {
  runtime_objects = replace_or_append m.heap o r m.runtime_objects;
}
