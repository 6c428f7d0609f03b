-- ===== src/Platform.antt =====
-- Code of main/platform.c that is not the debug log.
pub mod Frequency
pub mod Serial
pub mod Rounds
pub mod Counters
pub mod Turns
pub mod Decimal
pub mod Baud
pub mod Rates
pub mod Wifi
pub mod AccessPoint
