-- ===== src/HandBridge.antt =====
-- ros2_ws/src/hand_bridge: the bridge between a ROS node and the hand on a serial line.
pub mod AckParser
pub mod RetryPolicy
pub mod Uart
pub mod Node
