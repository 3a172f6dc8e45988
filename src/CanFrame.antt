-- ===== src/CanFrame.antt =====
-- The compact text form of a CAN frame: `parse_canframe` and `snprintf_canframe` of lib.c.
pub mod Print
pub mod Parse
pub mod Bounds
pub mod XlHeader
pub mod XlFrame
pub mod FdFrame
pub mod Remote
pub mod DataFrame
pub mod RoundTrip
pub mod Classic
pub mod IdRoundTrip
pub mod DataRoundTrip
pub mod Spells
mod Tests
