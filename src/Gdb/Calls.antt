-- ===== src/Gdb/Calls.antt =====
-- The calls of `GDB::gdb_main_loop`, main/gdb_main.cpp, whatever the packet.
use blackmagic_espidf.Base.{ℕ, ◌≡◌, Bool, true, false, Option, none, some, List, [], get_or}
use blackmagic_espidf.Base.Text.{codes, str_eq}
use blackmagic_espidf.Gdb.Poll.{Reason}
use blackmagic_espidf.Gdb.State.{Pointer, Server, Client, Probe, Out, answer}
use blackmagic_espidf.Gdb.Run.{step}
use blackmagic_espidf.Gdb.Query.{query}
use blackmagic_espidf.Gdb.Verbose.{verb}
use blackmagic_espidf.Gdb.Server.{
  Command, read_registers, write_registers, read_register, write_register, memory_read,
  memory_write, binary_write, breakpoint, select, extended, unsupported, stepped, resumed,
  interrupted, halt_reason, detached, killed, restarted, syscall_done, queried, verbose, command_of,
  on_reason, on_other, Next, loop, leave, on_syscall_done, on_command, handle,
}
use blackmagic_espidf.Gdb.Pointers.{
  At, is_null, Knows, Attaches, Keeps, server, replies-AreOn, if_Keeps, answer-Keeps, resume-Keeps,
  detach-Keeps, kill-Keeps, interrupt-Keeps,
}
use blackmagic_espidf.Gdb.Handlers.{
  read_regs-Keeps, write_regs-Keeps, read_reg-Keeps, write_reg-Keeps, on_read_memory-Keeps,
  on_write_memory-Keeps, on_write_binary-Keeps, handle_z_packet-Keeps,
}
use blackmagic_espidf.Gdb.Attached.{
  failed_restart, unchecked_query, restart-Keeps, handle_q_packet-Keeps,
}
use blackmagic_espidf.Gdb.Verbs.{unchecked_verb, handle_v_packet-Keeps}

-- The packets whose case calls a function of the probe firmware on a null pointer.
unfoldable pub unchecked_command : Probe → Pointer → Pointer → List ℕ → Command → Bool
unchecked_command w cur last packet interrupted = is_null cur
unchecked_command w cur last packet restarted = failed_restart w cur last
unchecked_command w cur last packet verbose = unchecked_verb cur (verb w packet)
unchecked_command w cur last packet queried = unchecked_query w cur packet (query w packet)
unchecked_command w cur last packet read_registers = false
unchecked_command w cur last packet write_registers = false
unchecked_command w cur last packet read_register = false
unchecked_command w cur last packet write_register = false
unchecked_command w cur last packet memory_read = false
unchecked_command w cur last packet memory_write = false
unchecked_command w cur last packet binary_write = false
unchecked_command w cur last packet breakpoint = false
unchecked_command w cur last packet select = false
unchecked_command w cur last packet extended = false
unchecked_command w cur last packet unsupported = false
unchecked_command w cur last packet stepped = false
unchecked_command w cur last packet resumed = false
unchecked_command w cur last packet halt_reason = false
unchecked_command w cur last packet detached = false
unchecked_command w cur last packet killed = false
unchecked_command w cur last packet syscall_done = false

unfoldable pub unchecked : Probe → Server → List ℕ → Bool
unfolding unchecked_command
unchecked w s packet =
    unchecked_command w s.cur_target s.last_target packet (command_of (get_or packet 0 0))

abbrev pub NextKeeps : (ℕ → Type 0) → Bool → Next → Type 0
NextKeeps R nulls (loop o) = Keeps R nulls o
NextKeeps R nulls leave = Unit

module _ (R : ℕ → Type 0) (nulls : Bool) (mode : Bool) (c : Client) (w : Probe)
    (attaches : Attaches R w) where
  abbrev Kept : Pointer → Pointer → (Server → Client → Out) → Type 0
  Kept cur last handler = At R cur → At R last → Keeps R nulls (handler (server cur last mode) c)

  on_reason-Keeps : (reason : Reason) (cur last : Pointer) → Kept cur last (on_reason reason)
  unfolding on_reason
  on_reason-Keeps reason none last on on' = record {
    calls = replies-AreOn R nulls _;
    knows = record { cur = on; last = on' };
  }
  on_reason-Keeps reason (some t) last on on' = record {
    calls = (on, replies-AreOn R nulls _);
    knows = record { cur = on; last = on' };
  }

  non_stop-Keeps :
      (scan : Option Bool) (cur last : Pointer)
      → Kept cur last (λ s c. elim scan [
        | some b ↦ answer s (record c { non_stop = b }) (codes "OK")
        | none ↦ answer s c []
      ])
  non_stop-Keeps none cur last on on' = answer-Keeps R nulls last mode c on' cur [] on
  non_stop-Keeps (some b) cur last on on' = record {
    calls = (tt, tt);
    knows = record { cur = on; last = on' };
  }

  on_other-Keeps :
      (packet : List ℕ) (cur last : Pointer) → Kept cur last (λ s c. on_other w s c packet)
  unfolding on_other
  on_other-Keeps packet cur last on on' =
      if_Keeps R nulls (str_eq packet (codes "QStartNoAckMode"))
        (record { calls = (tt, tt); knows = record { cur = on; last = on' } })
        (non_stop-Keeps (w.scan_non_stop packet) cur last on on')

  on_syscall_done-Keeps :
      (in_syscall : Bool) (cur last : Pointer)
      → At R cur
      → At R last
      → NextKeeps R nulls (on_syscall_done in_syscall (server cur last mode) c)
  on_syscall_done-Keeps true cur last on on' = tt
  on_syscall_done-Keeps false cur last on on' = answer-Keeps R nulls last mode c on' cur [] on

  module _ (digits : ℕ → List ℕ) (reason : Reason) (in_syscall : Bool) where
    on_command-Keeps :
        (packet : List ℕ) (cur last : Pointer) (command : Command)
        → (unchecked_command w cur last packet command ≡ true → nulls ≡ true)
        → At R cur
        → At R last
        → NextKeeps R nulls
            (on_command digits w reason in_syscall (server cur last mode) c packet command)
    unfolding on_command unchecked_command step
    on_command-Keeps packet cur last read_registers h on on' =
        read_regs-Keeps R nulls last mode c on' w cur on
    on_command-Keeps packet cur last write_registers h on on' =
        write_regs-Keeps R nulls last mode c on' w packet cur on
    on_command-Keeps packet cur last read_register h on on' =
        read_reg-Keeps R nulls last mode c on' w packet cur on
    on_command-Keeps packet cur last write_register h on on' =
        write_reg-Keeps R nulls last mode c on' w packet cur on
    on_command-Keeps packet cur last memory_read h on on' =
        on_read_memory-Keeps R nulls last mode c on' w packet cur on
    on_command-Keeps packet cur last memory_write h on on' =
        on_write_memory-Keeps R nulls last mode c on' w packet _ cur on
    on_command-Keeps packet cur last binary_write h on on' =
        on_write_binary-Keeps R nulls last mode c on' w packet _ cur on
    on_command-Keeps packet cur last breakpoint h on on' =
        handle_z_packet-Keeps R nulls last mode c on' w packet cur on
    on_command-Keeps packet cur last select h on on' = answer-Keeps R nulls last mode c on' cur _ on
    on_command-Keeps packet cur last extended h on on' =
        answer-Keeps R nulls last mode c on' cur _ on
    on_command-Keeps packet cur last unsupported h on on' = on_other-Keeps packet cur last on on'
    on_command-Keeps packet cur last stepped h on on' =
        resume-Keeps R nulls last mode (record c { single_step = true }) on' cur on
    on_command-Keeps packet cur last resumed h on on' = resume-Keeps R nulls last mode c on' cur on
    on_command-Keeps packet cur last interrupted h on on' =
        interrupt-Keeps R nulls last mode c on' cur h on
    on_command-Keeps packet cur last halt_reason h on on' = on_reason-Keeps reason cur last on on'
    on_command-Keeps packet cur last detached h on on' = detach-Keeps R nulls last mode c on' cur on
    on_command-Keeps packet cur last killed h on on' = kill-Keeps R nulls last mode c on' cur on
    on_command-Keeps packet cur last restarted h on on' =
        restart-Keeps R nulls mode c w attaches cur last h on on'
    on_command-Keeps packet cur last syscall_done h on on' =
        on_syscall_done-Keeps in_syscall cur last on on'
    on_command-Keeps packet cur last queried h on on' =
        handle_q_packet-Keeps R nulls mode c w attaches digits packet cur last h on on'
    on_command-Keeps packet cur last verbose h on on' =
        handle_v_packet-Keeps R nulls mode c w attaches packet cur last h on on'

-- Each call that a packet causes is on a target with the property, and so are the variables then, if
-- they were before and the targets that are attached have it; a null pointer is passed only by the
-- packets that `unchecked` names.
pub handle-Keeps :
    (R : ℕ → Type 0) (digits : ℕ → List ℕ) (w : Probe) (reason : Reason) (in_syscall : Bool)
    → (s : Server) (c : Client) (packet : List ℕ) → Attaches R w
    → Knows R s
    → NextKeeps R (unchecked w s packet) (handle digits w reason in_syscall s c packet)
unfolding handle unchecked
handle-Keeps R digits w reason in_syscall s c packet attaches k =
    on_command-Keeps R (unchecked w s packet) s.flash_mode c w attaches digits reason in_syscall
      packet s.cur_target s.last_target (command_of (get_or packet 0 0)) (λ e. e) k.cur k.last
