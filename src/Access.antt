-- ===== src/Access.antt =====
-- Roles and capabilities: core/access_control.py.
pub mod Roles
pub mod Control
pub mod Grants
pub mod Refusal
