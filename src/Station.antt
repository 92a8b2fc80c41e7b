-- ===== src/Station.antt =====
-- The operation of a station: operation.cpp and operation.h.
pub mod State
pub mod Op
pub mod Env
pub mod Display
pub mod Barrier
pub mod Clear
pub mod SeasonType
pub mod SeasonMessage
pub mod Vehicle
pub mod Marks
pub mod Gate
pub mod Admission
pub mod Exit
pub mod Fee
pub mod Found
pub mod Departure
pub mod TicketAnswer
pub mod TicketNumber
pub mod Ticket
pub mod Lane
pub mod Manual
pub mod Reader
pub mod Camera
pub mod Faults
pub mod Events
pub mod Host
pub mod Server
pub mod Monitored
