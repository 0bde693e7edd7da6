-- ===== src/Graph.antt =====
-- src/ma/core/graph: the shared state, the events and the nodes.
pub mod State
pub mod Trace
pub mod Events
pub mod Nodes
pub mod Builtins
