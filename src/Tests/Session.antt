-- ===== src/Tests/Session.antt =====
-- A session of GDB over TCP in three chunks, main/gdb_main.cpp and main/gdb_if.cpp.
use blackmagic_espidf.Base.{
  ℕ, ◌≡◌, refl, Bool, true, false, some, List, [], ◌∷◌, ◌++◌, map, length, replicate, arith,
}
use blackmagic_espidf.Base.Text.{codes}
use blackmagic_espidf.Packet.Encode.{frame, put_chars, next_char}
use blackmagic_espidf.Packet.Decode.{char}
use blackmagic_espidf.Channel.Input.{Reader}
use blackmagic_espidf.Channel.Output.{put}
use blackmagic_espidf.Gdb.Poll.{halt_running}
use blackmagic_espidf.Gdb.State.{send, call, target_halt_resume}
use blackmagic_espidf.Gdb.Run.{resume}
use blackmagic_espidf.Gdb.Server.{handle, on_command, command_of}
use blackmagic_espidf.Gdb.Sending.{frames, acknowledged}
use blackmagic_espidf.Gdb.Wire.{Wire, loop_turns}
use blackmagic_espidf.Gdb.Conversation.{Turn, ask, round_of, gdb_turns, talk}
use blackmagic_espidf.Gdb.Session.{read_chars, put_flagged, session_refines}
use blackmagic_espidf.Tests.Server.{probe, idle_client, with_target, hex}

abbrev reader : Reader
reader = record { buffer = replicate 256 0; buffer_index = 0; buffer_size = 0 }

abbrev chunks : List (List ℕ)
chunks = codes "$!#2" ∷ codes "1+$c" ∷ codes "#63" ∷ []

abbrev told : Wire
told = record {
  server = with_target;
  client = record idle_client { run_state = true };
  effects = send (b'$', codes "OK") ∷ call (target_halt_resume false) (some 7) ∷ [];
  chars = codes "+$OK#9A+";
  rest = [];
}

-- The `+` are flushed, and so is the last character of a packet.
abbrev written : List (ℕ × Bool)
written =
    (b'+', true)
    ∷ (b'$', false)
    ∷ (b'O', false)
    ∷ (b'K', false)
    ∷ (b'#', false)
    ∷ (b'9', false)
    ∷ (b'A', true)
    ∷ []

abbrev requests : List Turn
requests = ask halt_running probe (b'!' ∷ []) ∷ ask halt_running probe (b'c' ∷ []) ∷ []

session_refines_example :
    (loop_turns hex 0x21 0x23
        (map round_of requests)
        with_target
        idle_client
        (map char (read_chars 11 reader chunks))
      ≡ some told)
    × (put_flagged length (record { buf = []; connected = true }) (written ++ (b'+', true) ∷ [])
        ≡ put (record { buf = []; connected = true }) told.chars)
unfolding gdb_turns talk frames frame put_chars next_char acknowledged handle on_command command_of
    resume
session_refines_example =
    session_refines hex 0x21 0x23 requests with_target idle_client (codes "$!#21+$c#63") reader
      chunks told length written b'+' (omega arith)
      (
        (omega arith, tt),
        omega arith,
        omega arith,
        ((omega arith, tt), omega arith, omega arith, tt),
      )
      refl (record { whole = refl; read = omega arith; stored = omega arith })
      (omega arith, (omega arith, (omega arith, tt))) refl refl (λ xs. refl) refl
