-- ===== src/Gateway.antt =====
-- The gateway program, ros/src/ros_ws/src/modular_gateway_sender.
pub mod Client
pub mod Discovery
pub mod Ros
