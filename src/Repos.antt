-- ===== src/Repos.antt =====
-- Repositories: core/repo_resolver.py and core/source_tree_bounds.py.
pub mod Resolver
pub mod Targets
pub mod Resolved
pub mod Warned
pub mod Bounds
