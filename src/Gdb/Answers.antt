-- ===== src/Gdb/Answers.antt =====
-- How many packets answer a packet: `GDB::gdb_main_loop` of main/gdb_main.cpp.
use blackmagic_espidf.Base.{
  ℕ, ◌+◌, ◌≡◌, refl, Bool, false, if◌then◌else◌, none, some, List, [], ◌∷◌, ◌++◌, ◌==◌, arith,
}
use blackmagic_espidf.Base.Text.{codes}
use blackmagic_espidf.Gdb.Poll.{
  Reason, halt_running, halt_error, halt_request, halt_watchpoint, halt_fault, halt_other,
  on_halt_reason,
}
use blackmagic_espidf.Gdb.Memory.{read_memory, read_reply, write_memory, write_binary, write_reply}
use blackmagic_espidf.Gdb.State.{
  Pointer, Server, Client, Effect, call, command_process, send, notification, Probe, put,
}
use blackmagic_espidf.Gdb.Run.{detach, kill}
use blackmagic_espidf.Gdb.Registers.{
  read_regs, write_regs, read_reg, write_reg, on_read_memory, on_write_memory, on_write_binary,
  handle_z_packet,
}
use blackmagic_espidf.Gdb.Verbose.{
  on_attach, run_attached, on_flash_erase, on_flash_write, act, actions, on_cont, on_flash_done,
  on_stopped, answered_kill,
}
use blackmagic_espidf.Gdb.Server.{on_reason, on_other}

unfoldable pub answers : List Effect → ℕ
answers [] = 0
answers (call f p ∷ es) = answers es
answers (command_process p text ∷ es) = answers es
answers (notification text ∷ es) = answers es
answers (send (first, text) ∷ es) = (if first == b'$' then 1 else 0) + answers es

pub append-answers : (xs ys : List Effect) → answers (xs ++ ys) ≡ answers xs + answers ys
unfolding answers
append-answers [] ys = omega arith
append-answers (call f p ∷ xs) ys = append-answers xs ys
append-answers (command_process p text ∷ xs) ys = append-answers xs ys
append-answers (notification text ∷ xs) ys = append-answers xs ys
append-answers (send (first, text) ∷ xs) ys = omega (arith, append-answers xs ys)

act-answers : (t a : ℕ) (c : Client) → answers (act t a c).1 ≡ 0
unfolding act answers
act-answers t a c = ground arith

actions-answers : (t : ℕ) (text : List ℕ) (c : Client) → answers (actions t text c).1 ≡ 0
unfolding actions answers
actions-answers t [] c = refl
actions-answers t (a ∷ rest) c =
    let (c', done) = act t a c in
    let both = append-answers done (actions t rest c').1 in
    let h = act-answers t a c in let h' = actions-answers t rest c' in ground arith

module _ (w : Probe) (last : Pointer) (mode : Bool) (c : Client) where
  abbrev pub at : Pointer → Server
  at cur = record { cur_target = cur; last_target = last; flash_mode = mode }

  pub read_regs-answers : (cur : Pointer) → answers (read_regs w (at cur) c).effects ≡ 1
  unfolding read_regs answers
  read_regs-answers none = ground arith
  read_regs-answers (some t) = ground arith

  pub write_regs-answers :
      (pbuf : List ℕ) (cur : Pointer) → answers (write_regs w (at cur) c pbuf).effects ≡ 1
  unfolding write_regs answers
  write_regs-answers pbuf none = ground arith
  write_regs-answers pbuf (some t) = ground arith

  pub read_reg-answers :
      (pbuf : List ℕ) (cur : Pointer) → answers (read_reg w (at cur) c pbuf).effects ≡ 1
  unfolding read_reg answers
  read_reg-answers pbuf none = ground arith
  read_reg-answers pbuf (some t) = ground arith

  pub write_reg-answers :
      (pbuf : List ℕ) (cur : Pointer) → answers (write_reg w (at cur) c pbuf).effects ≡ 1
  unfolding write_reg answers
  write_reg-answers pbuf none = ground arith
  write_reg-answers pbuf (some t) = ground arith

  pub on_read_memory-answers :
      (pbuf : List ℕ) (cur : Pointer) → answers (on_read_memory w (at cur) c pbuf).effects ≡ 1
  unfolding on_read_memory read_memory read_reply answers
  on_read_memory-answers pbuf none = ground arith
  on_read_memory-answers pbuf (some t) = ground arith

  pub on_write_memory-answers :
      (pbuf : List ℕ) (size : ℕ) (cur : Pointer)
      → answers (on_write_memory w (at cur) c pbuf size).effects ≡ 1
  unfolding on_write_memory write_memory write_reply answers
  on_write_memory-answers pbuf size none = ground arith
  on_write_memory-answers pbuf size (some t) = ground arith

  pub on_write_binary-answers :
      (pbuf : List ℕ) (size : ℕ) (cur : Pointer)
      → answers (on_write_binary w (at cur) c pbuf size).effects ≡ 1
  unfolding on_write_binary write_binary write_reply answers
  on_write_binary-answers pbuf size none = ground arith
  on_write_binary-answers pbuf size (some t) = ground arith

  pub handle_z_packet-answers :
      (packet : List ℕ) (cur : Pointer) → answers (handle_z_packet w (at cur) c packet).effects ≡ 1
  unfolding handle_z_packet answers
  handle_z_packet-answers packet none = ground arith
  handle_z_packet-answers packet (some t) = ground arith

  pub detach-answers : (cur : Pointer) → answers (detach (at cur) c).effects ≡ 1
  unfolding detach answers
  detach-answers none = ground arith
  detach-answers (some t) = ground arith

  pub on_flash_erase-answers :
      (addr len : ℕ) (cur : Pointer) → answers (on_flash_erase w (at cur) c addr len).effects ≡ 1
  unfolding on_flash_erase answers
  on_flash_erase-answers addr len none = ground arith
  on_flash_erase-answers addr len (some t) = ground arith

  pub on_flash_write-answers :
      (addr : ℕ) (bytes : List ℕ) (cur : Pointer)
      → answers (on_flash_write w (at cur) c addr bytes).effects ≡ 1
  unfolding on_flash_write answers
  on_flash_write-answers addr bytes none = ground arith
  on_flash_write-answers addr bytes (some t) = ground arith

  pub on_attach-answers : (cur p : Pointer) → answers (on_attach (at cur) c p).effects ≡ 1
  unfolding on_attach answers
  on_attach-answers cur none = refl
  on_attach-answers cur (some t) = refl

  pub on_cont-answers :
      (text : List ℕ) (cur : Pointer) → answers (on_cont (at cur) c text).effects ≡ 1
  unfolding on_cont answers
  on_cont-answers text none = ground arith
  on_cont-answers text (some t) =
      let (c', es) = actions t text (record c { single_step = false }) in
      let both = append-answers es (put (codes "OK") ∷ []) in
      let h = actions-answers t text (record c { single_step = false }) in ground arith

  pub run_attached-answers :
      (text : List ℕ) (cur p : Pointer) → answers (run_attached (at cur) c text p).effects ≡ 1
  unfolding run_attached answers
  run_attached-answers text cur none = refl
  run_attached-answers text cur (some t) = refl

  pub on_stopped-answers : (cur : Pointer) → answers (on_stopped (at cur) c).effects ≡ 1
  unfolding on_stopped answers
  on_stopped-answers cur = ground arith

  pub on_flash_done-answers : (cur : Pointer) → answers (on_flash_done w (at cur) c).effects ≡ 1
  unfolding on_flash_done answers
  on_flash_done-answers cur = ground arith

  pub vkill-answers : (cur : Pointer) → answers (answered_kill (kill (at cur) c)).effects ≡ 1
  unfolding kill answers
  vkill-answers none = refl
  vkill-answers (some t) = refl

  pub on_other-answers :
      (packet : List ℕ) (cur : Pointer) → answers (on_other w (at cur) c packet).effects ≡ 1
  unfolding on_other answers
  on_other-answers packet cur = ground arith

  pub on_reason-answers :
      (reason : Reason) (cur : Pointer) → answers (on_reason reason (at cur) c).effects ≡ 1
  unfolding on_reason on_halt_reason answers
  on_reason-answers reason none = refl
  on_reason-answers halt_running (some t) = refl
  on_reason-answers halt_error (some t) = refl
  on_reason-answers halt_request (some t) = refl
  on_reason-answers (halt_watchpoint watch) (some t) = refl
  on_reason-answers halt_fault (some t) = refl
  on_reason-answers halt_other (some t) = refl
