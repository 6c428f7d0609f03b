-- ===== src/Tests.antt =====
-- Tests of the definitions on concrete inputs, and the theorems applied at concrete inputs.
mod Packet
mod Lock
mod Channel
mod Queue
mod Interleaved
mod Tftp
mod Update
mod Web
mod Gdb
mod Server
mod Monitor
mod Session
mod Clients
mod Pages
mod Platform
