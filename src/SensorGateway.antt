-- ===== src/SensorGateway.antt =====
-- The gateway in C: main.c, and the files that it calls.
pub mod Parser
pub mod Source
pub mod Mqtt
pub mod Main
