-- ===== src/Gdb/Stepping.antt =====
-- A step, the rounds until the target stops, and what comes behind: the packets `s` and `c` and the
-- rounds of `GDB::gdb_main_loop` without a packet, main/gdb_main.cpp.
use blackmagic_espidf.Base.{
  ℕ, zero, suc, ◌≡◌, refl, ap, ◌∙◌, Bool, true, false, if◌then◌else◌, some, List, [], ◌∷◌, ◌++◌,
  append-nil, arith,
}
use blackmagic_espidf.Gdb.Poll.{Reason, halt_running, poll, report, notify, is_halted}
use blackmagic_espidf.Gdb.State.{
  Pointer, Server, Client, Effect, call, target_halt_poll, target_halt_resume, Out, then_effects,
}
use blackmagic_espidf.Gdb.Run.{resume, step}
use blackmagic_espidf.Gdb.Registers.{replies}
use blackmagic_espidf.Gdb.Server.{idle}

-- Rounds without a packet, one after another.
unfoldable pub idles : List Reason → Server → Client → Out
idles [] s c = record { server = s; client = c; effects = [] }
idles (reason ∷ reasons) s c =
    let o = idle reason s c in then_effects o.effects (idles reasons o.server o.client)

-- Rounds in which the target runs, and the one in which it has stopped.
abbrev pub until : ℕ → Reason → List Reason
until zero reason = reason ∷ []
until (suc n) reason = halt_running ∷ until n reason

abbrev pub polls_of : ℕ → ℕ → List Effect
polls_of t zero = call target_halt_poll (some t) ∷ []
polls_of t (suc n) = call target_halt_poll (some t) ∷ polls_of t n

abbrev pub on_target : ℕ → Pointer → Bool → Server
on_target t last mode = record { cur_target = some t; last_target = last; flash_mode = mode }

idle-running :
    (t : ℕ) (last : Pointer) (mode : Bool) (c : Client)
    → c.run_state ≡ true
    → idle halt_running (on_target t last mode) c ≡ record {
      server = on_target t last mode;
      client = c;
      effects = call target_halt_poll (some t) ∷ [];
    }
unfolding idle poll report notify is_halted
idle-running t last mode c e = ground arith

pub idle-stopped :
    (t : ℕ) (last : Pointer) (mode : Bool) (c : Client) (reason : Reason)
    → c.run_state ≡ true
    → is_halted reason ≡ true
    → idle reason (on_target t last mode) c ≡ record {
      server = on_target t last mode;
      client = record c { run_state = false; single_step = false };
      effects =
          call target_halt_poll (some t)
          ∷ replies (if c.non_stop then notify reason else report reason);
    }
unfolding idle poll
idle-stopped t last mode c reason e h = ground arith

abbrev pub stopped : Client → Client
stopped c = record c { run_state = false; single_step = false }

-- The stop, in the mode that the client is in.
abbrev pub stop_of : Client → Reason → List Effect
stop_of c reason = replies (if c.non_stop then notify reason else report reason)

idles-until :
    (t : ℕ) (last : Pointer) (mode : Bool) (c : Client) (n : ℕ) (reason : Reason)
    → c.run_state ≡ true
    → is_halted reason ≡ true
    → idles (until n reason) (on_target t last mode) c ≡ record {
      server = on_target t last mode;
      client = stopped c;
      effects = polls_of t n ++ stop_of c reason;
    }
unfolding idles
idles-until t last mode c zero reason e h =
    ap (λ o. then_effects o.effects (record { server = o.server; client = o.client; effects = [] }))
      (idle-stopped t last mode c reason e h)
    ∙ ap (λ es. record { server = on_target t last mode; client = stopped c; effects = es })
        (append-nil (call target_halt_poll (some t) ∷ stop_of c reason))
idles-until t last mode c (suc n) reason e h =
    ap (λ o. then_effects o.effects (idles (until n reason) o.server o.client))
      (idle-running t last mode c e)
    ∙ ap (then_effects (call target_halt_poll (some t) ∷ []))
        (idles-until t last mode c n reason e h)

-- `s` with a target resumes it for one step. While the target runs, each round polls it and sends
-- nothing; the round in which it has stopped sends one stop, as a reply or as a notification. A `c`
-- behind that resumes the target without a step.
pub step-stops :
    (t : ℕ) (last : Pointer) (mode : Bool) (c : Client) (n : ℕ) (reason : Reason)
    → is_halted reason ≡ true
    → let o = step (on_target t last mode) c in
      let o' = idles (until n reason) o.server o.client in
      (o.effects ≡ call (target_halt_resume true) (some t) ∷ [])
      × (o'.effects ≡ polls_of t n ++ stop_of c reason)
      × ((resume o'.server o'.client).effects ≡ call (target_halt_resume false) (some t) ∷ [])
unfolding step resume
step-stops t last mode c n reason h =
    let ends =
      idles-until t last mode (record c { run_state = true; single_step = true }) n reason refl h in
    (refl, ap (λ o. o.effects) ends, ap (λ o. (resume o.server o.client).effects) ends)
