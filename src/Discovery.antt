-- ===== src/Discovery.antt =====
-- The discovery service and its protocol.
pub mod Protocol
pub mod Registry
pub mod Service
