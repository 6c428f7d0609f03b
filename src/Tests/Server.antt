-- ===== src/Tests/Server.antt =====
-- The packets of the GDB server, main/gdb_main.cpp, on concrete inputs.
use blackmagic_espidf.Base.{
  ℕ, ◌==◌, ◌≡◌, refl, Bool, true, false, if◌then◌else◌, none, some, List, [], ◌∷◌, ◌++◌, length,
  map, ◌<◌, arith,
}
use blackmagic_espidf.Base.Int.{pos}
use blackmagic_espidf.Base.Text.{codes, str_eq}
use blackmagic_espidf.Gdb.Lost.{on_exception, on_exception-scans}
use blackmagic_espidf.Gdb.Wire.{loop_turns}
use blackmagic_espidf.Gdb.Conversation.{
  Turn, ask, wait, round_of, gdb_turns, talk, loop_turns_refine,
}
use blackmagic_espidf.Gdb.Sending.{acknowledged}
use blackmagic_espidf.Packet.Encode.{frame, put_chars, next_char}
use blackmagic_espidf.Packet.Decode.{char, quiet}
use blackmagic_espidf.Gdb.Poll.{halt_running, halt_other, poll, report, is_halted}
use blackmagic_espidf.Gdb.State.{Server, Client, call, put, Probe, target_halt_resume}
use blackmagic_espidf.Gdb.Run.{scanned, resume, step, destroy_callback, begin}
use blackmagic_espidf.Gdb.Registers.{read_regs}
use blackmagic_espidf.Gdb.Query.{starts_with}
use blackmagic_espidf.Gdb.Cmdline.{run_cmdline, cmdline_length, run_cmdline-fits}
use blackmagic_espidf.Gdb.Verbose.{
  verb, on_verb, actions, act, on_cont, handle_v_packet, before_flash,
}
use blackmagic_espidf.Gdb.Server.{command_of, handle, on_command, idle}
use blackmagic_espidf.Gdb.Pointers.{At, Attaches, AreOn}
use blackmagic_espidf.Gdb.Calls.{unchecked}
use blackmagic_espidf.Gdb.Safety.{any_null, effects_of, handle-any_null}
use blackmagic_espidf.Gdb.Freed.{
  IsLive, appear, Step, packet, connected, found, Reached, start, next, Reached-AreOn,
}
use blackmagic_espidf.Gdb.Answers.{answers}
use blackmagic_espidf.Gdb.Answered.{command_replies, handle-answers}
use blackmagic_espidf.Gdb.Stepping.{idles, until, polls_of, stop_of, step-stops}
use blackmagic_espidf.Gdb.Flash.{
  session, erase, write, erases, writes, finished, ended, session-programs,
}

-- A probe with one target, number 7, on which nothing fails.
abbrev pub probe : Probe
probe = record {
  hexify = λ bytes. bytes;
  unhexify = λ text. text;
  regs = λ t. 1 ∷ 2 ∷ [];
  reg = λ t n. 1 ∷ [];
  reg_written = λ t n val. true;
  memory = λ t addr len. none;
  memory_failed = λ t addr bytes. false;
  attach_n = λ n. if n == 1 then some 7 else none;
  attach = λ l. some l;
  erased = λ t addr len. true;
  flashed = λ t addr bytes. true;
  completed = λ p. true;
  breakwatch = λ set t type' addr len. pos 0;
  crc = λ t addr len. none;
  mem_map = λ t. [];
  description = λ t. none;
  command = λ p text. (pos 0, text);
  command_sent = λ p text. [];
  scan1 = λ text. (0, 0);
  scan2 = λ text. (0, 0, 0);
  scan_attach = λ text. none;
  scan_erase = λ text. none;
  scan_write = λ text. none;
  scan_crc = λ text. none;
  scan_part = λ text. none;
  scan_non_stop = λ text. none;
}

abbrev pub idle_client : Client
idle_client = record {
  run_state = false;
  single_step = false;
  non_stop = false;
  no_ack_mode = false;
  gdb_needs_detach_notify = false;
}

abbrev pub with_target : Server
with_target = record { cur_target = some 7; last_target = none; flash_mode = false }

abbrev without : Server
without = record { cur_target = none; last_target = none; flash_mode = false }

abbrev pub hex : ℕ → List ℕ
hex n = []

-- A continue with a target is not answered at once, one without a target is.
continue_test :
    effects_of (handle hex probe halt_running false with_target idle_client (b'c' ∷ []))
    ≡ call (target_halt_resume false) (some 7) ∷ []
unfolding handle on_command command_of resume
continue_test = refl

no_target_test :
    effects_of (handle hex probe halt_running false without idle_client (b'c' ∷ []))
    ≡ put (codes "X1D") ∷ []
unfolding handle on_command command_of resume
no_target_test = refl

run_test :
    effects_of (handle hex probe halt_running false with_target idle_client (codes "vCont;s"))
    ≡ put (codes "OK") ∷ []
unfolding handle on_command command_of handle_v_packet verb on_verb on_cont actions act starts_with
run_test = refl

handle-any_null_example :
    any_null
      (effects_of (handle hex probe halt_running false without idle_client (codes "vFlashDone")))
    ≡ unchecked probe without (codes "vFlashDone")
handle-any_null_example =
    handle-any_null hex probe halt_running false without idle_client (codes "vFlashDone")

handle-answers_example :
    answers
      (effects_of (handle hex probe halt_running false with_target idle_client (codes "vCont;c")))
    ≡ command_replies probe false with_target (codes "vCont;c") (command_of b'v')
handle-answers_example =
    handle-answers hex probe halt_running false with_target idle_client (codes "vCont;c")

step-stops_example :
    let o = step with_target idle_client in
    let o' = idles (until 2 halt_other) o.server o.client in
    (o.effects ≡ call (target_halt_resume true) (some 7) ∷ [])
    × (o'.effects ≡ polls_of 7 2 ++ stop_of idle_client halt_other)
    × ((resume o'.server o'.client).effects ≡ call (target_halt_resume false) (some 7) ∷ [])
unfolding is_halted
step-stops_example = step-stops 7 none false idle_client 2 halt_other refl

-- A probe that reads three packets of a session.
abbrev flasher : Probe
flasher = record probe {
  scan_erase = λ packet.
      if starts_with (codes "vFlashErase:0,400") packet
      then some (0, 1024)
      else if starts_with (codes "vFlashErase:400,400") packet
      then some (1024, 1024)
      else none;
  scan_write = λ packet. if starts_with (codes "vFlashWrite:0:") packet then some (0, 14) else none;
}

session-programs_example :
    session flasher with_target idle_client (
      codes "vFlashErase:0,400" ∷ map erase ((codes "vFlashErase:400,400", (1024, 1024)) ∷ [])
      ++ (map write ((codes "vFlashWrite:0:", (0, 1 ∷ 2 ∷ [])) ∷ []) ++ codes "vFlashDone" ∷ []))
    ≡ ended flasher 7 none idle_client false (
        before_flash false 7
        ++ (erases 7 (
              (codes "vFlashErase:0,400", (0, 1024))
              ∷ (codes "vFlashErase:400,400", (1024, 1024))
              ∷ [])
            ++ (writes 7 ((codes "vFlashWrite:0:", (0, 1 ∷ 2 ∷ [])) ∷ [])
                ++ finished flasher 7 none idle_client)))
unfolding verb starts_with str_eq
session-programs_example =
    session-programs flasher 7 none idle_client (codes "vFlashErase:0,400") 0 1024
      ((codes "vFlashErase:400,400", (1024, 1024)) ∷ [])
      ((codes "vFlashWrite:0:", (0, 1 ∷ 2 ∷ [])) ∷ []) (codes "vFlashDone")
      (refl, refl, (refl, refl, tt)) (refl, refl, tt) refl refl

run_cmdline-fits_example : length (run_cmdline (λ a b. a) (codes ";6c73;")) < cmdline_length
run_cmdline-fits_example =
    run_cmdline-fits (λ a b. a) (codes ";6c73;")
      (omega arith, (omega arith, (omega arith, (omega arith, (omega arith, tt)))))

-- A target appears, a client connects and attaches to it.
abbrev live : ℕ → Bool
live = appear 7 (λ t. false)

attaches : Attaches (IsLive live) probe
attaches = record { new = λ n. by (n == 1); again = λ l alive. alive }
  where
    by : (b : Bool) → At (IsLive live) (if b then some 7 else none)
    by true = refl
    by false = tt

abbrev connected_server : Server
connected_server = begin probe (some 1) 1 without

connected-Reached : Reached (record { live = live; server = connected_server })
connected-Reached = next (next (start false) (found 7)) (connected probe (some 1) 1 attaches)

-- The client asks for the registers.
registers :
    Step
      (record { live = live; server = connected_server })
      (read_regs probe connected_server idle_client).effects
      (record { live = live; server = (read_regs probe connected_server idle_client).server })
unfolding handle on_command command_of
registers =
    packet hex probe halt_running false idle_client (codes "g")
      (read_regs probe connected_server idle_client) attaches refl

Reached-AreOn_example :
    AreOn (IsLive live) true (read_regs probe connected_server idle_client).effects
Reached-AreOn_example =
    Reached-AreOn (record { live = live; server = connected_server })
      (record { live = live; server = (read_regs probe connected_server idle_client).server })
      (read_regs probe connected_server idle_client).effects connected-Reached registers

freed_test : (destroy_callback probe 7 with_target idle_client).server ≡ without
unfolding destroy_callback
freed_test = refl

-- GDB asks for the extended protocol, and continues; behind a wait the target has stopped.
abbrev conversation_turns : List Turn
conversation_turns =
    ask halt_running probe (b'!' ∷ [])
    ∷ ask halt_running probe (b'c' ∷ [])
    ∷ wait halt_running probe
    ∷ wait halt_other probe
    ∷ []

turns_test :
    gdb_turns hex 0x21 0x23 conversation_turns with_target idle_client
    ≡ map char (codes "$!#21+$c#63") ++ quiet ∷ quiet ∷ char b'+' ∷ []
unfolding gdb_turns frame put_chars next_char acknowledged handle on_command command_of resume idle
    poll report is_halted
turns_test = refl

loop_turns_refine_example :
    loop_turns hex 0x21 0x23
      (map round_of conversation_turns)
      with_target
      idle_client
      (gdb_turns hex 0x21 0x23 conversation_turns with_target idle_client ++ [])
    ≡ talk hex 0x21 0x23 conversation_turns with_target idle_client []
loop_turns_refine_example =
    loop_turns_refine hex 0x21 0x23 conversation_turns with_target idle_client [] (omega arith) (
      (omega arith, tt),
      omega arith,
      omega arith,
      ((omega arith, tt), omega arith, omega arith, tt),
    )

-- The attached target is lost.
on_exception-scans_example :
    let o = on_exception probe (7 ∷ 8 ∷ []) with_target idle_client in
    (o.server.cur_target ≡ none)
    × (o.server.last_target ≡ none)
    × (begin probe (some 1) 2 o.server ≡ scanned probe (some 1) o.server)
on_exception-scans_example =
    on_exception-scans probe (7 ∷ 8 ∷ []) with_target idle_client (some 1) 2 refl tt
