-- ===== src/Plugin.antt =====
-- src/ma/core/plugin and src/ma/plugins: the contracts of the plugins, and the plugins.
pub mod Formats
pub mod Auth
pub mod Enrich
pub mod Registry
pub mod Adapter
pub mod Classifier
