-- ===== src/SerialFrame.antt =====
-- cpp_modules/serial_frame_demo: frames AA 55 03 hi lo cmd xor 0D 0A, and a parser of byte streams.
pub mod Codec
pub mod StreamParser
