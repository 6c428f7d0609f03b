-- ===== src/Channel.antt =====
-- The connections of the GDB clients, main/gdb_if.cpp: the characters of class `GDB_client`, and the
-- clients that `gdb_net_task` makes.
pub mod Input
pub mod Output
pub mod Stream
pub mod Sent
pub mod Clients
pub mod Counted
pub mod Owned
