-- ===== src/Tests/Monitor.antt =====
-- Commands of `monitor` and notifications of the GDB server, main/gdb_main.cpp, on concrete inputs.
use blackmagic_espidf.Base.{
  ◌+◌, ◌≡◌, refl, true, false, some, [], ◌∷◌, ◌++◌, replicate, if◌then◌else◌, ◌||◌,
}
use blackmagic_espidf.Base.Text.{codes, str_eq}
use blackmagic_espidf.Packet.Encode.{frame}
use blackmagic_espidf.Packet.Decode.{quiet}
use blackmagic_espidf.Packet.Resend.{copies}
use blackmagic_espidf.Gdb.Poll.{halt_other, notify, is_halted}
use blackmagic_espidf.Gdb.State.{Client, Probe, call, target_halt_poll, send, cortexm_ap, put}
use blackmagic_espidf.Gdb.Query.{run_command}
use blackmagic_espidf.Gdb.Stepping.{on_target, stopped}
use blackmagic_espidf.Gdb.Answers.{answers}
use blackmagic_espidf.Gdb.Commands.{Handled, read_ap, cmd_read_ap, own_replies, handler-run_command}
use blackmagic_espidf.Gdb.Wire.{loop_round}
use blackmagic_espidf.Gdb.Notified.{loop_round-repeats}
use blackmagic_espidf.Tests.Server.{probe, idle_client, with_target, hex}

abbrev running_client : Client
running_client = record idle_client { run_state = true; non_stop = true }

loop_round-repeats_example :
    loop_round hex halt_other 0x21 0x23 probe
      (on_target 7 (some 7) false)
      running_client
      (quiet ∷ replicate 4 quiet ++ quiet ∷ [])
    ≡ some (record {
      server = on_target 7 (some 7) false;
      client = stopped running_client;
      effects = call target_halt_poll (some 7) ∷ send (b'%', codes "Stop:T05thread:1;core:0;") ∷ [];
      chars = copies 4 (frame b'%' (codes "Stop:T05thread:1;core:0;"));
      rest = quiet ∷ [];
    })
unfolding is_halted notify
loop_round-repeats_example =
    loop_round-repeats hex 0x21 0x23 probe halt_other (codes "Stop:T05thread:1;core:0;") 7 (some 7)
      false running_client (quiet ∷ []) refl refl refl refl refl

abbrev reads : Handled
reads = record {
  returned = true;
  effects = call cortexm_ap (some 7) ∷ put (codes "O.K.:0xe00ff003" ++ 10 ∷ []) ∷ [];
}

-- The abbreviation `Read` of `ReadAP` is answered twice.
abbrev reading : Probe
reading = record probe { command_sent = λ p text. (codes "O.K.:0xe00ff003" ++ 10 ∷ []) ∷ [] }

handler-run_command_example :
    answers (run_command reading with_target idle_client (codes "Read")).effects
    ≡ own_replies read_ap
      + (if str_eq (codes "Read") (codes "ReadAP") || str_eq (codes "Read") (codes "WriteDP")
          then 0
          else 1)
unfolding cmd_read_ap
handler-run_command_example =
    handler-run_command reading with_target idle_client (codes "Read") (codes "Read") 0xe00ff003
      read_ap 7 (codes "Read" ∷ codes "1" ∷ []) reads refl refl refl refl
