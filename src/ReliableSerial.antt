-- ===== src/ReliableSerial.antt =====
-- cpp_modules/reliable_serial_demo: requests and acks in frames of ten bytes, and a device
-- that remembers its acks.
pub mod Protocol
pub mod Device
