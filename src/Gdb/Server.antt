-- ===== src/Gdb/Server.antt =====
-- One packet in the loop of `GDB::gdb_main_loop`, main/gdb_main.cpp: the switch on its first character.
use blackmagic_espidf.Base.{
  ℕ, Bool, true, false, none, some, List, [], ◌∷◌, ◌++◌, length, get_or, ◌==◌, ◌||◌, if◌then◌else◌,
}
use blackmagic_espidf.Base.Text.{codes, str_eq}
use blackmagic_espidf.Gdb.Poll.{Reason, Session, poll, on_halt_reason}
use blackmagic_espidf.Gdb.State.{Server, Client, target_halt_poll, call, Probe, Out, answer}
use blackmagic_espidf.Gdb.Run.{resume, step, interrupt, detach, kill, restart}
use blackmagic_espidf.Gdb.Registers.{
  read_regs, write_regs, read_reg, write_reg, replies, on_read_memory, on_write_memory,
  on_write_binary, handle_z_packet,
}
use blackmagic_espidf.Gdb.Query.{handle_q_packet}
use blackmagic_espidf.Gdb.Verbose.{handle_v_packet}

-- The cases of the switch.
pub data Command : Type 0 where
  read_registers write_registers read_register write_register : Command
  memory_read memory_write binary_write breakpoint : Command
  select extended unsupported : Command
  stepped resumed interrupted halt_reason : Command
  detached killed restarted : Command
  syscall_done queried verbose : Command

unfoldable pub command_of : ℕ → Command
command_of c =
    if c == b'g'
    then read_registers
    else if c == b'T' || c == b'H'
    then select
    else if c == b'm'
    then memory_read
    else if c == b'G'
    then write_registers
    else if c == b'M'
    then memory_write
    else if c == b'S' || c == b's'
    then stepped
    else if c == b'C' || c == b'c'
    then resumed
    else if c == 0x03
    then interrupted
    else if c == b'?'
    then halt_reason
    else if c == b'p'
    then read_register
    else if c == b'P'
    then write_register
    else if c == b'F'
    then syscall_done
    else if c == b'!'
    then extended
    else if c == 0x04 || c == b'D'
    then detached
    else if c == b'k'
    then killed
    else if c == b'r' || c == b'R'
    then restarted
    else if c == b'X'
    then binary_write
    else if c == b'q'
    then queried
    else if c == b'v'
    then verbose
    else if c == b'Z' || c == b'z'
    then breakpoint
    else unsupported

-- What Gdb.Poll sees of the variables.
abbrev pub has_target : Server → Bool
has_target s = elim s.cur_target [ none ↦ false | some t ↦ true ]

abbrev pub session : Server → Client → Session
session s c = record {
  run_state = c.run_state;
  single_step = c.single_step;
  non_stop = c.non_stop;
  has_target = has_target s;
}

-- The packet `?`.
unfoldable pub on_reason : Reason → Server → Client → Out
on_reason reason s c = record {
  server = s;
  client = c;
  effects =
      (elim s.cur_target [ none ↦ [] | some t ↦ call target_halt_poll (some t) ∷ [] ])
      ++ replies (on_halt_reason (session s c) reason);
}

-- What no case of the switch takes.
unfoldable pub on_other : Probe → Server → Client → List ℕ → Out
on_other w s c packet =
    if str_eq packet (codes "QStartNoAckMode")
    then answer s (record c { no_ack_mode = true }) (codes "OK")
    else elim (w.scan_non_stop packet) [
      | some on ↦ answer s (record c { non_stop = on }) (codes "OK")
      | none ↦ answer s c []
    ]

-- `leave`: the loop ends with what `hostio_reply` makes of the packet.
pub data Next : Type 0 where
  loop : Out → Next
  leave : Next

abbrev pub on_syscall_done : (in_syscall : Bool) → Server → Client → Next
on_syscall_done true s c = leave
on_syscall_done false s c = loop (answer s c [])

module _ (digits : ℕ → List ℕ) (w : Probe) (reason : Reason) (in_syscall : Bool) where
  unfoldable pub on_command : Server → Client → List ℕ → Command → Next
  unfolding on_reason on_other
  on_command s c packet read_registers = loop (read_regs w s c)
  on_command s c packet write_registers = loop (write_regs w s c packet)
  on_command s c packet read_register = loop (read_reg w s c packet)
  on_command s c packet write_register = loop (write_reg w s c packet)
  on_command s c packet memory_read = loop (on_read_memory w s c packet)
  on_command s c packet memory_write = loop (on_write_memory w s c packet (length packet))
  on_command s c packet binary_write = loop (on_write_binary w s c packet (length packet))
  on_command s c packet breakpoint = loop (handle_z_packet w s c packet)
  on_command s c packet select = loop (answer s c (codes "OK"))
  on_command s c packet extended = loop (answer s c (codes "OK"))
  on_command s c packet unsupported = loop (on_other w s c packet)
  on_command s c packet stepped = loop (step s c)
  on_command s c packet resumed = loop (resume s c)
  on_command s c packet interrupted = loop (interrupt s c)
  on_command s c packet halt_reason = loop (on_reason reason s c)
  on_command s c packet detached = loop (detach s c)
  on_command s c packet killed = loop (kill s c)
  on_command s c packet restarted = loop (restart w s c)
  on_command s c packet syscall_done = on_syscall_done in_syscall s c
  on_command s c packet queried = loop (handle_q_packet digits w s c packet)
  on_command s c packet verbose = loop (handle_v_packet w s c packet)

  -- A packet of at least one character.
  unfoldable pub handle : Server → Client → List ℕ → Next
  unfolding on_command command_of
  handle s c packet = on_command s c packet (command_of (get_or packet 0 0))

-- A round without a packet.
unfoldable pub idle : Reason → Server → Client → Out
unfolding poll
idle reason s c =
    let (session', sent) = poll (session s c) reason in
    record {
      server = s;
      client = record c { run_state = session'.run_state; single_step = session'.single_step };
      effects =
          (if c.run_state
            then elim s.cur_target [ none ↦ [] | some t ↦ call target_halt_poll (some t) ∷ [] ]
            else [])
          ++ replies sent;
    }
