-- ===== src/Samples.antt =====
-- Tests: the theorems at concrete inputs.
mod Data
mod Chats
mod Nodes
mod Rows
mod Plugins
mod Sockets
mod Compiling
mod Endpoints
mod Downstreams
mod Queries
mod Process
mod Walks
mod Broken
mod Report
