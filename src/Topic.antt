-- ===== src/Topic.antt =====
-- src/ma/core/topic: the topics, each of which a YAML file configures.
pub mod Config
pub mod Registry
pub mod Environment
