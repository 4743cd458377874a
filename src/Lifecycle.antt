-- ===== src/Lifecycle.antt =====
-- The lifecycle primitive: core/lifecycle/definitions.py, interfaces.py and service.py.
pub mod Definitions
pub mod Service
pub mod Chain
pub mod Recorded
