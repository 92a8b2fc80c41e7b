-- ===== src/Dio.antt =====
-- The digital inputs and outputs: dio.cpp, dio.h and the pin table of gpio.h.
pub mod Signals
pub mod Pins
pub mod Scan
pub mod Trace
pub mod Quiet
pub mod Presence
pub mod OpenTooLong
pub mod Alarm
pub mod Lost
pub mod ManualFlag
