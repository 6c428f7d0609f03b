-- ===== src/Gdb/Poll.antt =====
-- The rounds of `GDB::gdb_main_loop` without a packet, and the packet `?`. The probe firmware's
-- `target_halt_poll` gives the reason.
use blackmagic_espidf.Base.{
  ℕ, ◌/◌, ◌%◌, ◌^◌, Bool, true, false, ◌&&◌, List, [], ◌∷◌, ◌++◌, if◌then◌else◌,
}
use blackmagic_espidf.Base.Text.{codes, hex_byte}

-- `target_halt_reason`; `halt_other` stands for the values that the switches leave to `default`.
pub data Reason : Type 0 where
  halt_running : Reason
  halt_error : Reason
  halt_request : Reason
  halt_watchpoint : (watch : ℕ) → Reason
  halt_fault : Reason
  halt_other : Reason

-- What the loop keeps between packets; `has_target` is `cur_target` not null.
pub record Session : Type 0 where
  pub run_state : Bool
  pub single_step : Bool
  pub non_stop : Bool
  pub has_target : Bool

abbrev gdb_sigint : ℕ
gdb_sigint = 2

abbrev gdb_sigtrap : ℕ
gdb_sigtrap = 5

abbrev gdb_sigsegv : ℕ
gdb_sigsegv = 11

abbrev gdb_siglost : ℕ
gdb_siglost = 29

-- `%08X` of 32 bits.
abbrev hex_word : ℕ → List ℕ
hex_word n =
    hex_byte (n / 2 ^ 24 % 256)
    ++ hex_byte (n / 2 ^ 16 % 256)
    ++ hex_byte (n / 2 ^ 8 % 256)
    ++ hex_byte (n % 256)

-- A packet: where it starts, and its text.
abbrev pub Sent : Type 0
Sent = ℕ × List ℕ

abbrev notification : List ℕ → List Sent
notification text = (b'%', text) ∷ []

abbrev pub reply : List ℕ → List Sent
reply text = (b'$', text) ∷ []

abbrev thread_stop : ℕ → List ℕ
thread_stop signal = b'T' ∷ (hex_byte signal ++ codes "thread:1;core:0;")

abbrev watch_text : ℕ → List ℕ
watch_text watch = codes "watch:" ++ hex_word watch ++ b';' ∷ []

-- The switch of non-stop mode.
unfoldable pub notify : Reason → List Sent
notify halt_error = notification (codes "Stop:X" ++ hex_byte gdb_siglost)
notify halt_request = notification (codes "Stop:" ++ thread_stop gdb_sigint)
notify (halt_watchpoint watch) =
    notification (codes "Stop:" ++ thread_stop gdb_sigtrap ++ watch_text watch)
notify halt_fault = notification (codes "Stop:" ++ thread_stop gdb_sigsegv)
notify halt_running = []
notify halt_other = notification (codes "Stop:" ++ thread_stop gdb_sigtrap)

-- The switch of all-stop mode.
unfoldable pub report : Reason → List Sent
report halt_error = reply (b'X' ∷ hex_byte gdb_siglost)
report halt_request = reply (b'T' ∷ hex_byte gdb_sigint)
report (halt_watchpoint watch) = reply (b'T' ∷ (hex_byte gdb_sigtrap ++ watch_text watch))
report halt_fault = reply (b'T' ∷ hex_byte gdb_sigsegv)
report halt_running = []
report halt_other = reply (b'T' ∷ hex_byte gdb_sigtrap)

-- `reason != TARGET_HALT_RUNNING`.
unfoldable pub is_halted : Reason → Bool
is_halted halt_running = false
is_halted halt_error = true
is_halted halt_request = true
is_halted (halt_watchpoint watch) = true
is_halted halt_fault = true
is_halted halt_other = true

abbrev pub halted : Session → Session
halted s = record s { run_state = false; single_step = false }

-- One round in which `gdb_getpacket` returned 0; `reason` is what `target_halt_poll` would return.
unfoldable pub poll : Session → Reason → Session × List Sent
unfolding notify report is_halted
poll s reason =
    if s.run_state && s.has_target
    then (
      if is_halted reason then halted s else s,
      if s.non_stop then notify reason else report reason,
    )
    else (s, [])

-- Rounds without a packet, one after another.
unfoldable pub polls : Session → List Reason → Session × List Sent
polls s [] = (s, [])
polls s (reason ∷ reasons) =
    let (s', sent) = poll s reason in let (s'', sent') = polls s' reasons in (s'', sent ++ sent')

-- The packet `?`: the reply.
unfoldable pub on_halt_reason : Session → Reason → List Sent
on_halt_reason s reason = if s.has_target then halt_reply reason else reply (codes "W00")
  where
    halt_reply : Reason → List Sent
    halt_reply halt_error = reply (b'X' ∷ hex_byte gdb_siglost)
    halt_reply halt_request = reply (thread_stop gdb_sigint)
    halt_reply (halt_watchpoint watch) = reply (b'T' ∷ (hex_byte gdb_sigtrap ++ watch_text watch))
    halt_reply halt_fault = reply (thread_stop gdb_sigsegv)
    halt_reply halt_running = reply (thread_stop 0)
    halt_reply halt_other = reply (thread_stop gdb_sigtrap)
