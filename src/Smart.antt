-- ===== src/Smart.antt =====
-- smart.go, one child for each part: the routing of a call, the discovery and building of a
-- topology, and the endpoints that calls and topologies share.
pub mod Routing
pub mod State
pub mod Publish
pub mod Discover
pub mod Refresh
pub mod Lifecycle
