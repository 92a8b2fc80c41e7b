-- ===== src/Examples.antt =====
-- The theorems at concrete inputs.
mod Dio
mod Plate
mod Text
mod Tariff
mod Samples
mod Station
mod Departure
mod Ticket
mod Events
mod Server
mod Database
