-- ===== src/Text.antt =====
-- Text and byte utilities: common.cpp and parsedata.h.
pub mod Decimal
pub mod Fee
pub mod Hex
pub mod Words
pub mod Split
pub mod Fields
