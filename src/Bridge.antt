-- ===== src/Bridge.antt =====
-- The bridge process, bridge/src: its data plane (Routing, Transport) and its control plane.
pub mod Routing
pub mod Transport
pub mod Config
pub mod Sessions
pub mod Json
pub mod Sample
pub mod Connection
pub mod Control
