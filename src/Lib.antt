-- ===== src/Lib.antt =====
-- A model of the Backstage operator (Go): it turns a Backstage resource into the Kubernetes objects
-- of a Backstage instance, and keeps the cluster in step with them.
--
-- Parts, and the files that model them (paths of the sources are from the repository's root):
--   Api              api/v1alpha1/backstage_types.go: the resource's spec and status
--   Kube             the fields of the Kubernetes objects that the code reads or writes
--   Utils            pkg/utils/utils.go: names, labels, YAML files, passwords
--   Utils/PodMutator pkg/utils/pod-mutator.go: volumes, mounts and variables of a pod
--   Model/Objects    pkg/model/interfaces.go: the twelve classes of runtime objects, a constructor
--                    each, their factories, Object, EmptyObject and setObject
--   Model/State      the BackstageModel of pkg/model/runtime.go. Runtime objects are shared by
--                    pointers: they are cells of a heap, and the model holds addresses
--   Model/<Class>    pkg/model/<class>.go: addToModel, validate, setMetaInfo and updatePod of a class
--   Model/Pods       what several classes do to a workload
--   Model/Methods    pkg/model/interfaces.go: addToModel, validate and setMetaInfo, each class's own
--   Model/Runtime    pkg/model/runtime.go: InitObjects, in its three phases
--   Model/Selection  how the services select the pods of the workloads
--   Model/Structs    the struct of each class, with its Object, EmptyObject and setObject
--   Model/Registry   pkg/model/runtime.go: runtimeConfig, and the init function of each class
--   Model/Names      the names that setMetaInfo gives
--   Model/Documents  what InitObjects decodes for each class
--   Model/Returns    what InitObjects asks of the configuration, and that it then returns no error
--   Model/Soundness  when an object and a model are sound, and that each step of InitObjects keeps
--                    them so
--   Controller/Requests    the requests to the API server
--   Controller/Preprocess  controllers/spec_preprocessor.go
--   Controller/Apply, Controller/Clean, Controller/Reconcile
--                    controllers/backstage_controller.go: applyObjects and patchObject, cleanObjects,
--                    Reconcile
--   Main             main.go, and SetupWithManager of controllers/backstage_controller.go: the calls
--                    of the start, in their order, up to the first that fails
--   Matchers         integration_tests/matchers.go: what the integration tests look for in a pod, and
--                    that the pod mutator passes them
--   Examples         small inputs, and each result at one of them
--
-- Reconcile reads the resource, preprocessSpec reads the ConfigMaps that it names, InitObjects makes
-- the model from the default files, the raw configuration and the spec, applyObjects creates or
-- patches the model's objects, and cleanObjects deletes what is disabled.
--
-- How the code is rendered. A Go error is a GoError, which keeps what IsNotFound and the like see
-- through %w; a function's outcome is a value, an error or a panic (a nil pointer, an index out of
-- range, a failed type assertion). A pointer or map that may be nil is an Option. Deployment and
-- StatefulSet share one record. A method that talks to the API server passes along the list of its
-- requests, and the server's answers are any function of that list, so they cover whatever others
-- do to the cluster in between. A loop is a recursion on its list, so no fuel is needed.
--
-- Parameters (Platform, Server): the operating system, filepath, the YAML decoder, rand, base64,
-- strconv, sort.Slice, the order of a map iteration, SetControllerReference, SetStatusCondition and
-- the API server. A result that relies on one of them names what it relies on as a hypothesis. A
-- configuration is complete (IsConfigured) if, for each class, what is decoded from its default file
-- and what is decoded over that from its entry of the raw configuration has a container and a
-- selector in a workload and a port in a service, and names no owner, and if the spec's route leaves
-- something out. Of the outside code this asks that the decoder keeps the kind of the object that it
-- fills, that SetControllerReference succeeds on an object without an owner in the owner's namespace,
-- and that sort.Slice permutes its slice. A configuration has what InitObjects asks for (IsProvided)
-- if, for each class, the default file decodes or is missing and its entry of the raw configuration
-- decodes, one of the two has the deployment and the service, and those of the database where that is
-- enabled, the deployment has the init container of the dynamic plugins, and each secret that the spec
-- mounts is given with a key. A theorem about Reconcile asks this of the raw configuration that
-- preprocessSpec reads for the resource.
--
-- Not modelled: logging and its counter of reconciliations, the parsing of the flags and the set-up
-- of the logger in main.go, the generated deep copies, the test helpers, and the fields of Kubernetes
-- objects that the code never touches.
pub mod Prelude
pub mod StringMap
pub mod GoError
pub mod Kube
pub mod Api
pub mod Platform
pub mod Utils
pub mod Model
pub mod Controller
pub mod Main
pub mod Matchers
mod Examples
