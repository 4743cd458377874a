-- ===== src/Config.antt =====
-- The configuration that core/env_config.py reads from the environment.
pub mod Ai
pub mod Consistent
pub mod Aliases
