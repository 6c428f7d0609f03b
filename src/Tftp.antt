-- ===== src/Tftp.antt =====
-- The TFTP server and client for updates over the air, main/ota-tftp.c.
pub mod Packet
pub mod Field
pub mod Receive
pub mod Rounds
pub mod Datagrams
pub mod Transfer
pub mod Limits
pub mod Silence
pub mod Server
pub mod Update
pub mod Foreign
pub mod Client
