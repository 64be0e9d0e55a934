-- ===== src/Capabilities.antt =====
-- components/robot_capabilities/robot_capabilities.c: endpoints of the robot and their registry.
pub mod Endpoint
pub mod Registry
