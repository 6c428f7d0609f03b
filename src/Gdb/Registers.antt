-- ===== src/Gdb/Registers.antt =====
-- The packets of `GDB::gdb_main_loop` for registers, memory and breakpoints: `g`, `G`, `p`, `P`, `m`,
-- `M`, `X`, and `handle_z_packet`, in main/gdb_main.cpp.
use blackmagic_espidf.Base.{
  ℕ, ◌-◌, ◌*◌, ◌/◌, Bool, true, some, List, [], ◌∷◌, ◌++◌, length, take, drop, get_or, ltb, ◌==◌,
  if◌then◌else◌,
}
use blackmagic_espidf.Base.Int.{ℤ, pos, negsuc, neg}
use blackmagic_espidf.Base.Text.{codes}
use blackmagic_espidf.Packet.Encode.{c_string}
use blackmagic_espidf.Gdb.Poll.{Sent}
use blackmagic_espidf.Gdb.Memory.{
  Target, Handled, handled, unset, read_memory, write_memory, write_binary,
}
use blackmagic_espidf.Gdb.State.{
  Server, Client, target_regs_read, target_regs_write, target_reg_read, target_reg_write,
  target_mem_read, target_mem_write, target_breakwatch_set, target_breakwatch_clear, Effect, call,
  send, Probe, Out, put, if_target,
}

-- The reply behind calls that leave the variables alone.
abbrev pub reply_after : Server → Client → List Effect → List ℕ → Out
reply_after s c before text = record { server = s; client = c; effects = before ++ put text ∷ [] }

unfoldable pub read_regs : Probe → Server → Client → Out
read_regs w s c = if_target s c (λ t.
    let regs : List ℕ = w.regs t in
    reply_after s c (call target_regs_read (some t) ∷ []) (take (length regs * 2) (w.hexify regs)))

unfoldable pub write_regs : Probe → Server → Client → List ℕ → Out
write_regs w s c pbuf = if_target s c (λ t.
    let arm_regs : List ℕ = w.unhexify (take (length (w.regs t) * 2) (drop 1 pbuf)) in
    reply_after s c (call (target_regs_write arm_regs) (some t) ∷ []) (codes "OK"))

unfoldable pub read_reg : Probe → Server → Client → List ℕ → Out
read_reg w s c pbuf = if_target s c (λ t.
    let reg : ℕ = (w.scan1 pbuf).0 in
    let val : List ℕ = w.reg t reg in
    reply_after s c (call (target_reg_read reg) (some t) ∷ [])
      (if ltb 0 (length val) then take (length val * 2) (w.hexify val) else codes "EFF"))

unfoldable pub write_reg : Probe → Server → Client → List ℕ → Out
write_reg w s c pbuf = if_target s c (λ t.
    let (reg, n) = w.scan1 pbuf in
    let text : List ℕ = c_string (drop n pbuf) in
    let val : List ℕ = w.unhexify (take (length text / 2 * 2) text) in
    reply_after s c (call (target_reg_write reg val) (some t) ∷ [])
      (if w.reg_written t reg val then codes "OK" else codes "EFF"))

-- Memory that is the calls made so far.
abbrev pub log_target : Probe → ℕ → Target (List Effect)
log_target w t = record {
  mem_read = λ log addr len. w.memory t addr len;
  mem_write = λ log addr bytes.
      (w.memory_failed t addr bytes, log ++ call (target_mem_write addr bytes) (some t) ∷ []);
}

abbrev pub replies : List Sent → List Effect
replies [] = []
replies (p ∷ sent) = send p ∷ replies sent

abbrev pub handled_as : Server → Client → Handled (List Effect) → Out
handled_as s c (handled log sent) = record { server = s; client = c; effects = log ++ replies sent }
handled_as s c unset = record { server = s; client = c; effects = [] }

-- `target_mem_read` is called only for a length that is not refused.
unfoldable pub on_read_memory : Probe → Server → Client → List ℕ → Out
on_read_memory w s c pbuf = if_target s c (λ t.
    let (addr, len, _) = w.scan2 pbuf in
    handled_as s c (
      read_memory (log_target w t) w.hexify true
        (if ltb 512 len then [] else call (target_mem_read addr len) (some t) ∷ [])
        (some (addr, len))))

unfoldable pub on_write_memory : Probe → Server → Client → List ℕ → (size : ℕ) → Out
on_write_memory w s c pbuf size = if_target s c (λ t.
    handled_as s c
      (write_memory (log_target w t) w.unhexify true [] pbuf size (some (w.scan2 pbuf))))

unfoldable pub on_write_binary : Probe → Server → Client → List ℕ → (size : ℕ) → Out
on_write_binary w s c pbuf size =
    if_target s c
      (λ t. handled_as s c (write_binary (log_target w t) true [] pbuf size (some (w.scan2 pbuf))))

-- `c - '0'`.
abbrev pub digit_of : ℕ → ℤ
digit_of c = if ltb c b'0' then neg (b'0' - c) else pos (c - b'0')

abbrev pub breakwatch_reply : ℤ → List ℕ
breakwatch_reply (negsuc n) = codes "E01"
breakwatch_reply (pos n) = if n == 0 then codes "OK" else []

unfoldable pub handle_z_packet : Probe → Server → Client → List ℕ → Out
handle_z_packet w s c packet = if_target s c (λ t.
    let set : Bool = get_or packet 0 0 == b'Z' in
    let type' : ℤ = digit_of (get_or packet 1 0) in
    let (addr, len, _) = w.scan2 (drop 2 packet) in
    reply_after s c
      (call
          (if set
            then target_breakwatch_set type' addr len
            else target_breakwatch_clear type' addr len)
          (some t)
        ∷ [])
      (breakwatch_reply (w.breakwatch set t type' addr len)))
