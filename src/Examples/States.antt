-- ===== src/Examples/States.antt =====
-- A model's slice of runtime objects, with a secret that replaces another one.
use janus_idp_operator.Prelude.{true, some, [], ◌∷◌, ◌≡◌, refl, if◌then◌else◌}
use janus_idp_operator.Kube.{zero_secret}
use janus_idp_operator.Model.Objects.{db_secret, db_secret_factory, db_service_factory}
use janus_idp_operator.Model.State.{BackstageModel, alloc, set_runtime_object}
use janus_idp_operator.Model.State.Classes.{has_class, find_class, set_runtime_object-finds}
use janus_idp_operator.Model.Runtime.{new_model}
use janus_idp_operator.Controller.Preprocess.{no_config}
use janus_idp_operator.Examples.{sample_backstage}

-- Two objects are in the slice, and a third one is in the heap.
abbrev three_cells : BackstageModel
three_cells =
    record (alloc (db_secret (some zero_secret)) (
      alloc db_secret_factory
        (alloc db_service_factory (new_model sample_backstage no_config true)))) {
          runtime_objects = 0 ∷ 1 ∷ [];
        }

set_runtime_object-finds_example :
    find_class three_cells.heap 3
      (set_runtime_object 2 (db_secret (some zero_secret)) three_cells).runtime_objects
    ≡ (if has_class 3 (some (db_secret (some zero_secret)))
        then some 2
        else find_class three_cells.heap 3 three_cells.runtime_objects)
set_runtime_object-finds_example =
    set_runtime_object-finds three_cells 2 (db_secret (some zero_secret)) 3 refl
