-- ===== src/Model.antt =====
-- pkg/model: the classes of runtime objects, one module each, and the model made of them.
pub mod Structs
pub mod Objects
pub mod Registry
pub mod State
pub mod Pods
pub mod AppConfig
pub mod ConfigMapFiles
pub mod SecretFiles
pub mod ConfigMapEnvs
pub mod SecretEnvs
pub mod DbService
pub mod BackstageService
pub mod DbSecret
pub mod DbStatefulSet
pub mod BackstageRoute
pub mod DynamicPlugins
pub mod Deployment
pub mod Selection
pub mod Names
pub mod Methods
pub mod Documents
pub mod Soundness
pub mod Returns
pub mod Runtime
