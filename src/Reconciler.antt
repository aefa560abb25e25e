-- ===== src/Reconciler.antt =====
-- reconciler.go: `KubernetesClient.Deploy`, which brings the objects of a deployment to the cluster.
pub mod Objects
pub mod Api
pub mod Desired
pub mod Environment
pub mod Registry
pub mod Namespaces
pub mod Apply
pub mod Deploy
pub mod Triples
pub mod Frames
pub mod Steps
pub mod Ownership
pub mod Writes
pub mod Applied
pub mod Refusal
pub mod PullSecret
pub mod Outcome
mod Tests
