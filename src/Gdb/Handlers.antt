-- ===== src/Gdb/Handlers.antt =====
-- The calls that the handlers of Gdb.Registers, Gdb.Query and Gdb.Verbose make are on the target that
-- the variables give.
use blackmagic_espidf.Base.{
  ℕ, Bool, true, false, if◌then◌else◌, ltb, Option, none, some, List, [], ◌∷◌,
}
use blackmagic_espidf.Base.Text.{codes}
use blackmagic_espidf.Gdb.Poll.{reply}
use blackmagic_espidf.Gdb.Memory.{
  Handled, handled, unset, read_memory, read_reply, write_memory, write_binary, write_reply,
}
use blackmagic_espidf.Gdb.State.{
  Pointer, Server, Client, Call, Effect, call, Probe, Out, answer, target_mem_write,
}
use blackmagic_espidf.Gdb.Registers.{
  reply_after, read_regs, write_regs, read_reg, write_reg, log_target, replies, handled_as,
  on_read_memory, on_write_memory, on_write_binary, handle_z_packet,
}
use blackmagic_espidf.Gdb.Pointers.{
  At, AreOn, Knows, Keeps, server, append-AreOn, replies-AreOn, answer-Keeps,
}

abbrev HandledOn : (ℕ → Type 0) → Bool → Handled (List Effect) → Type 0
HandledOn R nulls (handled log sent) = AreOn R nulls log
HandledOn R nulls unset = Unit

module _ (R : ℕ → Type 0) (nulls : Bool) where
  handled_as-Keeps :
      (s : Server) (c : Client)
      → Knows R s
      → (h : Handled (List Effect)) → HandledOn R nulls h
      → Keeps R nulls (handled_as s c h)
  handled_as-Keeps s c k (handled log sent) on = record {
    calls = append-AreOn R nulls log (replies sent) on (replies-AreOn R nulls sent);
    knows = k;
  }
  handled_as-Keeps s c k unset on = record { calls = tt; knows = k }

  if_HandledOn :
      (h h' : Handled (List Effect)) (b : Bool)
      → HandledOn R nulls h
      → HandledOn R nulls h'
      → HandledOn R nulls (if b then h else h')
  if_HandledOn h h' true on on' = on
  if_HandledOn h h' false on on' = on'

  module _ (w : Probe) (t : ℕ) (alive : R t) where
    read_reply-HandledOn :
        (log : List Effect) (len : ℕ)
        → AreOn R nulls log
        → (r : Option (List ℕ)) → HandledOn R nulls (read_reply (log_target w t) w.hexify log len r)
    unfolding read_reply
    read_reply-HandledOn log len on none = on
    read_reply-HandledOn log len on (some bytes) = on

    read_memory-HandledOn :
        (log : List Effect) (args : ℕ × ℕ)
        → AreOn R nulls log
        → HandledOn R nulls (read_memory (log_target w t) w.hexify true log (some args))
    unfolding read_memory
    read_memory-HandledOn log (addr, len) on =
        if_HandledOn _ _ (ltb 512 len) on (read_reply-HandledOn log len on (w.memory t addr len))

    write_reply-HandledOn :
        (addr : ℕ) (bytes : List ℕ) (failed refused : Bool)
        → HandledOn R nulls (
            if refused
            then handled [] (reply (codes "E02"))
            else write_reply
                (log_target w t)
                (failed, call (target_mem_write addr bytes) (some t) ∷ []))
    unfolding write_reply
    write_reply-HandledOn addr bytes failed true = tt
    write_reply-HandledOn addr bytes true false = (alive, tt)
    write_reply-HandledOn addr bytes false false = (alive, tt)

    write_memory-HandledOn :
        (pbuf : List ℕ) (size : ℕ) (args : ℕ × ℕ × ℕ)
        → HandledOn R nulls (write_memory (log_target w t) w.unhexify true [] pbuf size (some args))
    unfolding write_memory
    write_memory-HandledOn pbuf size (addr, len, hex) =
        write_reply-HandledOn addr _ (w.memory_failed t addr _) _

    write_binary-HandledOn :
        (pbuf : List ℕ) (size : ℕ) (args : ℕ × ℕ × ℕ)
        → HandledOn R nulls (write_binary (log_target w t) true [] pbuf size (some args))
    unfolding write_binary
    write_binary-HandledOn pbuf size (addr, len, bin) =
        write_reply-HandledOn addr _ (w.memory_failed t addr _) _

module _ (R : ℕ → Type 0) (nulls : Bool) (last : Pointer) (mode : Bool) (c : Client)
    (known : At R last) (w : Probe) where
  abbrev Kept : Pointer → (Server → Client → Out) → Type 0
  Kept cur handler = At R cur → Keeps R nulls (handler (server cur last mode) c)

  called-Keeps :
      (t : ℕ) (f : Call) (text : List ℕ)
      → Kept (some t) (λ s c. reply_after s c (call f (some t) ∷ []) text)
  called-Keeps t f text on = record {
    calls = (on, (tt, tt));
    knows = record { cur = on; last = known };
  }

  refused-Keeps : (text : List ℕ) → Kept none (λ s c. answer s c text)
  refused-Keeps text on = answer-Keeps R nulls last mode c known none text on

  known-Keeps :
      (t : ℕ)
      → (h : Handled (List Effect)) → (R t → HandledOn R nulls h)
      → Kept (some t) (λ s c. handled_as s c h)
  known-Keeps t h f on = handled_as-Keeps R nulls _ c (record { cur = on; last = known }) h (f on)

  pub read_regs-Keeps : (cur : Pointer) → Kept cur (read_regs w)
  unfolding read_regs
  read_regs-Keeps none on = refused-Keeps _ on
  read_regs-Keeps (some t) on = called-Keeps t _ _ on

  pub write_regs-Keeps : (pbuf : List ℕ) (cur : Pointer) → Kept cur (λ s c. write_regs w s c pbuf)
  unfolding write_regs
  write_regs-Keeps pbuf none on = refused-Keeps _ on
  write_regs-Keeps pbuf (some t) on = called-Keeps t _ _ on

  pub read_reg-Keeps : (pbuf : List ℕ) (cur : Pointer) → Kept cur (λ s c. read_reg w s c pbuf)
  unfolding read_reg
  read_reg-Keeps pbuf none on = refused-Keeps _ on
  read_reg-Keeps pbuf (some t) on = called-Keeps t _ _ on

  pub write_reg-Keeps : (pbuf : List ℕ) (cur : Pointer) → Kept cur (λ s c. write_reg w s c pbuf)
  unfolding write_reg
  write_reg-Keeps pbuf none on = refused-Keeps _ on
  write_reg-Keeps pbuf (some t) on = called-Keeps t _ _ on

  made-AreOn :
      (t : ℕ) (f : Call) (b : Bool) → R t → AreOn R nulls (if b then [] else call f (some t) ∷ [])
  made-AreOn t f true on = tt
  made-AreOn t f false on = (on, tt)

  pub on_read_memory-Keeps :
      (pbuf : List ℕ) (cur : Pointer) → Kept cur (λ s c. on_read_memory w s c pbuf)
  unfolding on_read_memory
  on_read_memory-Keeps pbuf none on = refused-Keeps _ on
  on_read_memory-Keeps pbuf (some t) on =
      known-Keeps t _
        (λ alive. read_memory-HandledOn R nulls w t alive _ _ (made-AreOn t _ _ alive)) on

  pub on_write_memory-Keeps :
      (pbuf : List ℕ) (size : ℕ) (cur : Pointer) → Kept cur (λ s c. on_write_memory w s c pbuf size)
  unfolding on_write_memory
  on_write_memory-Keeps pbuf size none on = refused-Keeps _ on
  on_write_memory-Keeps pbuf size (some t) on =
      known-Keeps t _ (λ alive. write_memory-HandledOn R nulls w t alive pbuf size _) on

  pub on_write_binary-Keeps :
      (pbuf : List ℕ) (size : ℕ) (cur : Pointer) → Kept cur (λ s c. on_write_binary w s c pbuf size)
  unfolding on_write_binary
  on_write_binary-Keeps pbuf size none on = refused-Keeps _ on
  on_write_binary-Keeps pbuf size (some t) on =
      known-Keeps t _ (λ alive. write_binary-HandledOn R nulls w t alive pbuf size _) on

  pub handle_z_packet-Keeps :
      (packet : List ℕ) (cur : Pointer) → Kept cur (λ s c. handle_z_packet w s c packet)
  unfolding handle_z_packet
  handle_z_packet-Keeps packet none on = refused-Keeps _ on
  handle_z_packet-Keeps packet (some t) on = called-Keeps t _ _ on
