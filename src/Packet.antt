-- ===== src/Packet.antt =====
-- The packet layer of the GDB remote serial protocol, main/gdb_packet.cpp.
pub mod Encode
pub mod Decode
pub mod Body
pub mod Frame
pub mod Receive
pub mod Resend
