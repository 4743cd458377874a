-- ===== src/Tests.antt =====
-- Sample data, runs of the definitions on it, and the theorems at concrete inputs.
pub mod Samples
pub mod RuntimeTests
pub mod OutcomeTests
pub mod LifecycleTests
pub mod AccessTests
pub mod ReleaseTests
pub mod RepoTests
pub mod CodexTests
pub mod JobTests
pub mod ConfigTests
