-- ===== src/Server.antt =====
-- The Go package server (server/*.go): the gateway between the HTTP handlers and the network.
pub mod PeerName
pub mod Statistics
pub mod Targets
pub mod State
pub mod Gateway
pub mod Listener
pub mod Journey
pub mod Provider
pub mod Restart
pub mod Start
pub mod Tests
