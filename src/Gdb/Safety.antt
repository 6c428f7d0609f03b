-- ===== src/Gdb/Safety.antt =====
-- Null pointers and freed targets in the calls of `GDB::gdb_main_loop`, main/gdb_main.cpp.
use blackmagic_espidf.Base.{
  ℕ, ◌≡◌, refl, sym, ap, ◌∙◌, subst, Bool, true, false, not, ◌&&◌, if◌then◌else◌, none, some, List,
  [], ◌∷◌, ◌++◌, map, ◌||◌, get_or, Bool-cases, inl, inr, arith,
}
use blackmagic_espidf.Gdb.Poll.{Reason}
use blackmagic_espidf.Gdb.State.{
  Pointer, Server, Client, Effect, call, command_process, send, notification, Probe, put,
}
use blackmagic_espidf.Gdb.Run.{interrupt, restart}
use blackmagic_espidf.Base.Text.{codes, str_eq}
use blackmagic_espidf.Gdb.Query.{
  Query, query, rcmd, supported, is_attached, memory_map, features, current, thread_first,
  thread_next, crc, starts_with, command_reply, run_command, monitor_reset, command_text, monitor,
  on_query, handle_q_packet,
}
use blackmagic_espidf.Gdb.Verbose.{
  Verb, verb, on_verb, handle_v_packet, v_run, v_cont, v_kill, flash_done, stopped, unknown,
  v_attach, flash_erase, flash_write, on_flash_done,
}
use blackmagic_espidf.Gdb.Server.{
  Command, read_registers, write_registers, read_register, write_register, memory_read,
  memory_write, binary_write, breakpoint, select, extended, unsupported, stepped, resumed,
  interrupted, halt_reason, detached, killed, restarted, syscall_done, queried, verbose, command_of,
  Next, loop, leave, on_command, handle,
}
use blackmagic_espidf.Gdb.Pointers.{At, is_null, AreOn}
use blackmagic_espidf.Gdb.Attached.{failed_restart, unchecked_query}
use blackmagic_espidf.Gdb.Verbs.{unchecked_verb}
use blackmagic_espidf.Gdb.Calls.{unchecked_command, unchecked, NextKeeps, handle-Keeps}

abbrev pub effects_of : Next → List Effect
effects_of (loop o) = o.effects
effects_of leave = []

-- A function that takes a target is called on a null pointer, `command_process` too.
abbrev pub is_null_call : Effect → Bool
is_null_call (call f p) = is_null p
is_null_call (command_process p text) = is_null p
is_null_call (send sent) = false
is_null_call (notification text) = false

unfoldable pub any_null : List Effect → Bool
any_null [] = false
any_null (e ∷ es) = is_null_call e || any_null es

AreOn-any_null : (R : ℕ → Type 0) (es : List Effect) → AreOn R false es → any_null es ≡ false
unfolding any_null
AreOn-any_null R [] h = refl
AreOn-any_null R (call f none ∷ es) h = sym h.0
AreOn-any_null R (call f (some t) ∷ es) h = AreOn-any_null R es h.1
AreOn-any_null R (command_process none text ∷ es) h = sym h.0
AreOn-any_null R (command_process (some t) text ∷ es) h = AreOn-any_null R es h.1
AreOn-any_null R (send sent ∷ es) h = AreOn-any_null R es h.1
AreOn-any_null R (notification text ∷ es) h = AreOn-any_null R es h.1

NextKeeps-any_null :
    (R : ℕ → Type 0) (n : Next) → NextKeeps R false n → any_null (effects_of n) ≡ false
unfolding any_null
NextKeeps-any_null R (loop o) h = AreOn-any_null R o.effects h.calls
NextKeeps-any_null R leave h = refl

verb-any_null :
    (w : Probe) (s : Server) (c : Client) (packet : List ℕ) (v : Verb)
    → unchecked_verb s.cur_target v ≡ true
    → any_null (on_verb w s c packet v).effects ≡ true
unfolding on_verb on_flash_done unchecked_verb any_null
verb-any_null w s c packet flash_done h = ap (λ b. b || false) h
verb-any_null w s c packet v_run h = ground arith
verb-any_null w s c packet v_cont h = ground arith
verb-any_null w s c packet v_kill h = ground arith
verb-any_null w s c packet stopped h = ground arith
verb-any_null w s c packet unknown h = ground arith
verb-any_null w s c packet (v_attach n) h = ground arith
verb-any_null w s c packet (flash_erase addr len) h = ground arith
verb-any_null w s c packet (flash_write addr bin) h = ground arith

restarted-any_null :
    (w : Probe) (s : Server) (c : Client) (cur last : Pointer)
    → failed_restart w cur last ≡ true
    → any_null (restart w (record s { cur_target = cur; last_target = last }) c).effects ≡ true
unfolding restart failed_restart any_null
restarted-any_null w s c none (some l) h = ap (λ b. b || false) h
restarted-any_null w s c none none h = ground arith
restarted-any_null w s c (some t) last h = ground arith

first-any_null : (e : Effect) (es : List Effect) → is_null_call e ≡ true → any_null (e ∷ es) ≡ true
unfolding any_null
first-any_null e es h = ap (λ b. b || any_null es) h

monitored-any_null :
    (w : Probe) (s : Server) (c : Client) (text : List ℕ) (reset : Bool)
    → (not reset && is_null s.cur_target) ≡ true
    → any_null (if reset then monitor_reset s c else run_command w s c text).effects ≡ true
unfolding any_null
monitored-any_null w s c text true h = ground arith
monitored-any_null w s c text false h =
    let (value, text') = w.command s.cur_target text in
    let own = str_eq text' (codes "ReadAP") || str_eq text' (codes "WriteDP") in
    first-any_null (command_process s.cur_target text)
      (map put (w.command_sent s.cur_target text) ++ (if own then [] else command_reply value)) h

query-any_null :
    (digits : ℕ → List ℕ) (w : Probe) (s : Server) (c : Client) (packet : List ℕ) (q : Query)
    → unchecked_query w s.cur_target packet q ≡ true
    → any_null (on_query digits w s c packet q).effects ≡ true
unfolding on_query monitor unchecked_query any_null
query-any_null digits w s c packet rcmd h =
    monitored-any_null w s c (command_text w packet)
      (starts_with (codes "reset") (command_text w packet)) h
query-any_null digits w s c packet supported h = ground arith
query-any_null digits w s c packet is_attached h = ground arith
query-any_null digits w s c packet memory_map h = ground arith
query-any_null digits w s c packet features h = ground arith
query-any_null digits w s c packet current h = ground arith
query-any_null digits w s c packet thread_first h = ground arith
query-any_null digits w s c packet thread_next h = ground arith
query-any_null digits w s c packet Query.unknown h = ground arith
query-any_null digits w s c packet (crc addr alen) h = ground arith

module _ (digits : ℕ → List ℕ) (w : Probe) (reason : Reason) (in_syscall : Bool) where
  command-any_null :
      (s : Server) (c : Client) (packet : List ℕ) (command : Command)
      → unchecked_command w s.cur_target s.last_target packet command ≡ true
      → any_null (effects_of (on_command digits w reason in_syscall s c packet command)) ≡ true
  unfolding on_command unchecked_command any_null interrupt handle_v_packet handle_q_packet
  command-any_null s c packet interrupted h = ap (λ b. b || false) h
  command-any_null s c packet restarted h = restarted-any_null w s c s.cur_target s.last_target h
  command-any_null s c packet verbose h = verb-any_null w s c packet (verb w packet) h
  command-any_null s c packet read_registers h = ground arith
  command-any_null s c packet write_registers h = ground arith
  command-any_null s c packet read_register h = ground arith
  command-any_null s c packet write_register h = ground arith
  command-any_null s c packet memory_read h = ground arith
  command-any_null s c packet memory_write h = ground arith
  command-any_null s c packet binary_write h = ground arith
  command-any_null s c packet breakpoint h = ground arith
  command-any_null s c packet select h = ground arith
  command-any_null s c packet extended h = ground arith
  command-any_null s c packet unsupported h = ground arith
  command-any_null s c packet stepped h = ground arith
  command-any_null s c packet resumed h = ground arith
  command-any_null s c packet halt_reason h = ground arith
  command-any_null s c packet detached h = ground arith
  command-any_null s c packet killed h = ground arith
  command-any_null s c packet syscall_done h = ground arith
  command-any_null s c packet queried h = query-any_null digits w s c packet (query w packet) h

everywhere : (p : Pointer) → At (λ t. Unit) p
everywhere none = tt
everywhere (some t) = tt

-- A packet makes the server call a function of the probe firmware on a null pointer exactly if it is
-- the interrupt, `vFlashDone` or a `qRcmd` but for `reset`, which calls `command_process`, while no
-- target is attached, or `r` or `R` while none is attached and the attachment to the last target
-- fails.
pub handle-any_null :
    (digits : ℕ → List ℕ) (w : Probe) (reason : Reason) (in_syscall : Bool)
    → (s : Server) (c : Client) (packet : List ℕ)
    → any_null (effects_of (handle digits w reason in_syscall s c packet)) ≡ unchecked w s packet
unfolding handle unchecked
handle-any_null digits w reason in_syscall s c packet = elim (Bool-cases (unchecked w s packet)) [
  | inl e ↦
      command-any_null digits w reason in_syscall s c packet (command_of (get_or packet 0 0)) e
      ∙ sym e
  | inr e ↦
      NextKeeps-any_null (λ t. Unit) (handle digits w reason in_syscall s c packet)
        (subst (λ b. NextKeeps (λ t. Unit) b (handle digits w reason in_syscall s c packet)) e kept)
      ∙ sym e
]
  where
    kept :
        NextKeeps (λ t. Unit) (unchecked w s packet) (handle digits w reason in_syscall s c packet)
    kept =
        handle-Keeps (λ t. Unit) digits w reason in_syscall s c packet
          (record { new = λ n. everywhere (w.attach_n n); again = λ l h. everywhere (w.attach l) })
          (record { cur = everywhere s.cur_target; last = everywhere s.last_target })
