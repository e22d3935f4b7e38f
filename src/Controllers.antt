-- ===== src/Controllers.antt =====
-- lib/cluster/controller: the handlers of the HTTP server.
pub mod Redis
pub mod Nodes
pub mod Hello
pub mod Sql
