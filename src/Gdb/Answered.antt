-- ===== src/Gdb/Answered.antt =====
-- Which packets the server answers at once: `GDB::gdb_main_loop` of main/gdb_main.cpp.
use blackmagic_espidf.Base.{ℕ, ◌≡◌, refl, Bool, true, false, length, not, none, some, List, get_or}
use blackmagic_espidf.Gdb.Poll.{Reason}
use blackmagic_espidf.Gdb.State.{Pointer, Server, Client, Probe}
use blackmagic_espidf.Gdb.Run.{resume, step, interrupt, kill, restart}
use blackmagic_espidf.Gdb.Query.{query, handle_q_packet}
use blackmagic_espidf.Gdb.Verbose.{verb, handle_v_packet}
use blackmagic_espidf.Gdb.Server.{
  Command, read_registers, write_registers, read_register, write_register, memory_read,
  memory_write, binary_write, breakpoint, select, extended, unsupported, stepped, resumed,
  interrupted, halt_reason, detached, killed, restarted, syscall_done, queried, verbose, command_of,
  on_syscall_done, on_command, handle,
}
use blackmagic_espidf.Gdb.Pointers.{is_null}
use blackmagic_espidf.Gdb.Safety.{effects_of}
use blackmagic_espidf.Gdb.Answers.{
  answers, read_regs-answers, write_regs-answers, read_reg-answers, write_reg-answers,
  on_read_memory-answers, on_write_memory-answers, on_write_binary-answers, handle_z_packet-answers,
  detach-answers, on_other-answers, on_reason-answers,
}
use blackmagic_espidf.Gdb.Replies.{answered, query_replies, on_query-answers, on_verb-answers}

-- How many packets answer a command at once.
unfoldable pub command_replies : Probe → (in_syscall : Bool) → Server → List ℕ → Command → ℕ
unfolding query_replies
command_replies w in_syscall s packet stepped = answered (not (is_null s.cur_target))
command_replies w in_syscall s packet resumed = answered (not (is_null s.cur_target))
command_replies w in_syscall s packet interrupted = 0
command_replies w in_syscall s packet killed = 0
command_replies w in_syscall s packet restarted = 0
command_replies w in_syscall s packet syscall_done = answered in_syscall
command_replies w in_syscall s packet queried = query_replies w s packet (query w packet)
command_replies w in_syscall s packet read_registers = 1
command_replies w in_syscall s packet write_registers = 1
command_replies w in_syscall s packet read_register = 1
command_replies w in_syscall s packet write_register = 1
command_replies w in_syscall s packet memory_read = 1
command_replies w in_syscall s packet memory_write = 1
command_replies w in_syscall s packet binary_write = 1
command_replies w in_syscall s packet breakpoint = 1
command_replies w in_syscall s packet select = 1
command_replies w in_syscall s packet extended = 1
command_replies w in_syscall s packet unsupported = 1
command_replies w in_syscall s packet halt_reason = 1
command_replies w in_syscall s packet detached = 1
command_replies w in_syscall s packet verbose = 1

module _ (w : Probe) (mode : Bool) (c : Client) where
  abbrev at : Pointer → Pointer → Server
  at cur last = record { cur_target = cur; last_target = last; flash_mode = mode }

  resume-answers :
      (cur last : Pointer) → answers (resume (at cur last) c).effects ≡ answered (not (is_null cur))
  unfolding resume answers
  resume-answers none last = refl
  resume-answers (some t) last = refl

  kill-answers : (cur last : Pointer) → answers (kill (at cur last) c).effects ≡ 0
  unfolding kill answers
  kill-answers none last = refl
  kill-answers (some t) last = refl

  restart-answers : (cur last : Pointer) → answers (restart w (at cur last) c).effects ≡ 0
  unfolding restart answers
  restart-answers none none = refl
  restart-answers none (some l) = refl
  restart-answers (some t) last = refl

module _ (digits : ℕ → List ℕ) (w : Probe) (reason : Reason) where
  syscall_done-answers :
      (in_syscall : Bool) (s : Server) (c : Client)
      → answers (effects_of (on_syscall_done in_syscall s c)) ≡ answered in_syscall
  unfolding answers
  syscall_done-answers true s c = refl
  syscall_done-answers false s c = refl

  on_command-answers :
      (in_syscall : Bool) (s : Server) (c : Client) (packet : List ℕ) (command : Command)
      → answers (effects_of (on_command digits w reason in_syscall s c packet command))
        ≡ command_replies w in_syscall s packet command
  unfolding on_command command_replies answers step interrupt handle_q_packet handle_v_packet
  on_command-answers in_syscall s c packet read_registers =
      read_regs-answers w s.last_target s.flash_mode c s.cur_target
  on_command-answers in_syscall s c packet write_registers =
      write_regs-answers w s.last_target s.flash_mode c packet s.cur_target
  on_command-answers in_syscall s c packet read_register =
      read_reg-answers w s.last_target s.flash_mode c packet s.cur_target
  on_command-answers in_syscall s c packet write_register =
      write_reg-answers w s.last_target s.flash_mode c packet s.cur_target
  on_command-answers in_syscall s c packet memory_read =
      on_read_memory-answers w s.last_target s.flash_mode c packet s.cur_target
  on_command-answers in_syscall s c packet memory_write =
      on_write_memory-answers w s.last_target s.flash_mode c packet (length packet) s.cur_target
  on_command-answers in_syscall s c packet binary_write =
      on_write_binary-answers w s.last_target s.flash_mode c packet (length packet) s.cur_target
  on_command-answers in_syscall s c packet breakpoint =
      handle_z_packet-answers w s.last_target s.flash_mode c packet s.cur_target
  on_command-answers in_syscall s c packet select = refl
  on_command-answers in_syscall s c packet extended = refl
  on_command-answers in_syscall s c packet unsupported =
      on_other-answers w s.last_target s.flash_mode c packet s.cur_target
  on_command-answers in_syscall s c packet stepped =
      resume-answers w s.flash_mode (record c { single_step = true }) s.cur_target s.last_target
  on_command-answers in_syscall s c packet resumed =
      resume-answers w s.flash_mode c s.cur_target s.last_target
  on_command-answers in_syscall s c packet interrupted = refl
  on_command-answers in_syscall s c packet halt_reason =
      on_reason-answers w s.last_target s.flash_mode c reason s.cur_target
  on_command-answers in_syscall s c packet detached =
      detach-answers w s.last_target s.flash_mode c s.cur_target
  on_command-answers in_syscall s c packet killed =
      kill-answers w s.flash_mode c s.cur_target s.last_target
  on_command-answers in_syscall s c packet restarted =
      restart-answers w s.flash_mode c s.cur_target s.last_target
  on_command-answers in_syscall s c packet syscall_done = syscall_done-answers in_syscall s c
  on_command-answers in_syscall s c packet queried =
      on_query-answers w s.flash_mode c digits packet s.cur_target s.last_target (query w packet)
  on_command-answers in_syscall s c packet verbose =
      on_verb-answers w s.flash_mode c packet s.cur_target s.last_target (verb w packet)

  -- The server answers a packet with exactly one packet, but in these cases: none for `s` or `c`
  -- with a target, the interrupt, `k`, `r` or `R`, and the reply to a call of the target's while one
  -- is awaited; for a `qRcmd` but for `reset` those that the command sends itself, and one more
  -- unless its text or result says that it has replied.
  pub handle-answers :
      (in_syscall : Bool) (s : Server) (c : Client) (packet : List ℕ)
      → answers (effects_of (handle digits w reason in_syscall s c packet))
        ≡ command_replies w in_syscall s packet (command_of (get_or packet 0 0))
  unfolding handle
  handle-answers in_syscall s c packet =
      on_command-answers in_syscall s c packet (command_of (get_or packet 0 0))
