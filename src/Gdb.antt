-- ===== src/Gdb.antt =====
-- The GDB server, main/gdb_main.cpp. Gdb.State is what it keeps; Gdb.Server is its loop over packets,
-- and the modules in front of it are the loop's cases.
pub mod Poll
pub mod Report
pub mod Xfer
pub mod Memory
pub mod Access
pub mod State
pub mod Run
pub mod Registers
pub mod Query
pub mod Cmdline
pub mod Verbose
pub mod Server
pub mod Pointers
pub mod Handlers
pub mod Attached
pub mod Verbs
pub mod Calls
pub mod Safety
pub mod Freed
pub mod Lost
pub mod Answers
pub mod Replies
pub mod Answered
pub mod Stepping
pub mod Flash
pub mod Commands
pub mod Notified
pub mod Wire
pub mod Sending
pub mod Conversation
pub mod Session
