-- ===== src/Web.antt =====
-- The pages that the probe serves, and the table of URLs of main/http.c.
pub mod Routes
pub mod Served
pub mod Rate
pub mod Upgrade
pub mod Rebooting
pub mod Status
pub mod Percent
pub mod History
pub mod Keys
