-- ===== src/Releases.antt =====
-- Releases: core/releases and the planning of core/api/releases.py.
pub mod Spec
pub mod Compiler
pub mod Renderer
pub mod K8s
pub mod Compiled
pub mod Rendered
pub mod Equality
pub mod Plan
pub mod PlanDiff
pub mod Changes
pub mod Store
pub mod Api
pub mod Apply
pub mod Saved
pub mod Published
pub mod Applied
pub mod Reconciler
pub mod Reconciled
