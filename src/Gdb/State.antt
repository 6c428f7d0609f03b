-- ===== src/Gdb/State.antt =====
-- What the GDB server of main/gdb_main.cpp keeps, and what a packet makes it do. A target is a number,
-- a pointer to one an option; the functions of the probe firmware are calls with the results that
-- `Probe` gives.
use blackmagic_espidf.Base.{ℕ, Bool, Option, none, some, List, [], ◌∷◌, ◌++◌}
use blackmagic_espidf.Base.Int.{ℤ}
use blackmagic_espidf.Base.Text.{codes}
use blackmagic_espidf.Gdb.Poll.{Sent}

abbrev pub Pointer : Type 0
Pointer = Option ℕ

-- The variables that all clients share: `cur_target`, `last_target`, and `flash_mode` of
-- `handle_v_packet`.
pub record Server : Type 0 where
  pub cur_target : Pointer
  pub last_target : Pointer
  pub flash_mode : Bool

-- The members of class `GDB` that packets change.
pub record Client : Type 0 where
  pub run_state : Bool
  pub single_step : Bool
  pub non_stop : Bool
  pub no_ack_mode : Bool
  pub gdb_needs_detach_notify : Bool

-- The functions that take a target, with their other arguments.
pub data Call : Type 0 where
  target_regs_read : Call
  target_regs_write : (regs : List ℕ) → Call
  target_reg_read : (reg : ℕ) → Call
  target_reg_write : (reg : ℕ) (val : List ℕ) → Call
  target_mem_read : (addr len : ℕ) → Call
  target_mem_write : (addr : ℕ) (data' : List ℕ) → Call
  target_halt_resume : (step : Bool) → Call
  target_halt_request : Call
  target_halt_poll : Call
  target_reset : Call
  target_detach : Call
  target_set_cmdline : (cmdline : List ℕ) → Call
  target_flash_erase : (addr len : ℕ) → Call
  target_flash_write : (addr : ℕ) (data' : List ℕ) → Call
  target_flash_complete : Call
  target_breakwatch_set : (type' : ℤ) (addr len : ℕ) → Call
  target_breakwatch_clear : (type' : ℤ) (addr len : ℕ) → Call
  generic_crc32 : (addr len : ℕ) → Call
  target_mem_map : Call
  target_regs_description : Call
  cortexm_ap : Call

pub data Effect : Type 0 where
  call : Call → Pointer → Effect
  -- `command_process` is made for a null pointer too.
  command_process : Pointer → (text : List ℕ) → Effect
  send : Sent → Effect
  -- `gdb_put_notification`, which waits for no acknowledgement.
  notification : (text : List ℕ) → Effect

-- What the probe firmware's functions return to one packet, what `sscanf` of C stores or, where it
-- stores nothing, the variable's own value, and what `target_halt_poll` and `hexify` make.
pub record Probe : Type 0 where
  pub hexify : List ℕ → List ℕ
  pub unhexify : List ℕ → List ℕ
  pub regs : ℕ → List ℕ
  pub reg : ℕ → ℕ → List ℕ
  pub reg_written : ℕ → ℕ → List ℕ → Bool
  pub memory : ℕ → ℕ → ℕ → Option (List ℕ)
  pub memory_failed : ℕ → ℕ → List ℕ → Bool
  pub attach_n : ℕ → Pointer
  pub attach : ℕ → Pointer
  pub erased : ℕ → ℕ → ℕ → Bool
  pub flashed : ℕ → ℕ → List ℕ → Bool
  pub completed : Pointer → Bool
  pub breakwatch : Bool → ℕ → ℤ → ℕ → ℕ → ℤ
  pub crc : ℕ → ℕ → ℕ → Option ℕ
  pub mem_map : ℕ → List ℕ
  pub description : ℕ → Option (List ℕ)
  pub command : Pointer → List ℕ → ℤ × List ℕ
  -- The packets that the command sends itself, as `cmd_write_dp` and `cmd_read_ap` do.
  pub command_sent : Pointer → List ℕ → List (List ℕ)
  -- `%x` and `%x,%x` with the offset behind them.
  pub scan1 : List ℕ → ℕ × ℕ
  pub scan2 : List ℕ → ℕ × ℕ × ℕ
  -- The formats whose result is tested.
  pub scan_attach : List ℕ → Option ℕ
  pub scan_erase : List ℕ → Option (ℕ × ℕ)
  pub scan_write : List ℕ → Option (ℕ × ℕ)
  pub scan_crc : List ℕ → Option (ℕ × ℕ)
  pub scan_part : List ℕ → Option (ℕ × ℕ)
  pub scan_non_stop : List ℕ → Option Bool

-- The state behind a packet, and what was done.
pub record Out : Type 0 where
  pub server : Server
  pub client : Client
  pub effects : List Effect

-- `gdb_putpacketz`, which is outside the repository, sends one packet.
abbrev pub put : List ℕ → Effect
put text = send (b'$', text)

abbrev pub answer : Server → Client → List ℕ → Out
answer s c text = record { server = s; client = c; effects = put text ∷ [] }

abbrev pub then_effects : List Effect → Out → Out
then_effects before o = record o { effects = before ++ o.effects }

-- `ERROR_IF_NO_TARGET`, and the rest of the case for a target.
abbrev pub if_target : Server → Client → (ℕ → Out) → Out
if_target s c handler = elim s.cur_target [ none ↦ answer s c (codes "EFF") | some t ↦ handler t ]
