-- ===== src/Gdb/Wire.antt =====
-- A round of `GDB::gdb_main_loop`, main/gdb_main.cpp, on the characters that come and go: the packet is
-- received by `gdb_getpacket`, and the replies are sent by `gdb_putpacket` and
-- `gdb_put_notification` of main/gdb_packet.cpp, which read the acknowledgements.
use blackmagic_espidf.Base.{
  ℕ, ◌-◌, Bool, false, Option, none, some, List, [], ◌∷◌, ◌++◌, map, length, drop, ◌==◌,
  if◌then◌else◌,
}
use blackmagic_espidf.Packet.Encode.{putpacket, put_notification, no_char}
use blackmagic_espidf.Packet.Decode.{
  Input, char, quiet, Settings, Action, Outcome, nothing, control, packet, Result, returned,
  pending, getpacket, return_value,
}
use blackmagic_espidf.Packet.Resend.{answered}
use blackmagic_espidf.Gdb.Poll.{Reason}
use blackmagic_espidf.Gdb.State.{
  Server, Client, Effect, call, command_process, send, notification, Probe,
}
use blackmagic_espidf.Gdb.Server.{Next, loop, leave, handle, idle}

-- What `gdb_if_getchar_to` returns.
abbrev pub heard : Input → ℕ
heard (char c) = c
heard quiet = no_char

-- A packet: the characters sent, and the input behind the acknowledgements read. Those that
-- `gdb_putnotifpacket_f` sends, from `%`, wait for an acknowledgement as well.
unfoldable pub send_packet :
    (no_ack_mode : Bool) → (pktstart : ℕ) → List ℕ → List Input → List ℕ × List Input
send_packet no_ack_mode pktstart text input =
    let (chars, rest) = putpacket no_ack_mode pktstart text (map heard input) in
    (chars, drop (length input - length rest) input)

unfoldable pub send_all : (no_ack_mode : Bool) → List Effect → List Input → List ℕ × List Input
unfolding send_packet
send_all no_ack_mode [] input = ([], input)
send_all no_ack_mode (call f p ∷ es) input = send_all no_ack_mode es input
send_all no_ack_mode (command_process p text ∷ es) input = send_all no_ack_mode es input
send_all no_ack_mode (notification text ∷ es) input =
    let (chars, rest) = send_all no_ack_mode es input in (put_notification text ++ chars, rest)
send_all no_ack_mode (send (pktstart, text) ∷ es) input =
    let (chars, input') = send_packet no_ack_mode pktstart text input in
    let (chars', input'') = send_all no_ack_mode es input' in (chars ++ chars', input'')

-- What rounds came to: the state, what was done, what was sent, and the input that is left.
pub record Wire : Type 0 where
  pub server : Server
  pub client : Client
  pub effects : List Effect
  pub chars : List ℕ
  pub rest : List Input

-- What `gdb_getpacket` leaves in `pbuf`.
abbrev pub text_of : Outcome → List ℕ
text_of nothing = []
text_of (control c) = c ∷ []
text_of (packet buf) = buf

-- The end of a round; nothing where the loop is left.
unfoldable pub reply_to : List Action → List Input → Next → Option Wire
unfolding send_all
reply_to acts input leave = none
reply_to acts input (loop o) =
    let (chars, rest) = send_all o.client.no_ack_mode o.effects input in
    some (record {
      server = o.server;
      client = o.client;
      effects = o.effects;
      chars = answered acts ++ chars;
      rest = rest;
    })

abbrev pub and_then : List Effect → List ℕ → Option Wire → Option Wire
and_then effects chars none = none
and_then effects chars (some b) =
    some (record b { effects = effects ++ b.effects; chars = chars ++ b.chars })

module _ (digits : ℕ → List ℕ) (reason : Reason) (remote_som remote_eom : ℕ) where
  -- The settings of `gdb_getpacket(pbuf, BUF_SIZE)`.
  abbrev pub settings : Client → Settings
  settings c = record {
    size = 1024;
    no_ack_mode = c.no_ack_mode;
    remote_som = remote_som;
    remote_eom = remote_eom;
  }

  unfoldable pub on_result : Probe → Server → Client → List Action → Result → Option Wire
  unfolding reply_to
  on_result w s c acts (pending ph) = none
  on_result w s c acts (returned o rest) =
      if return_value o == 0
      then reply_to acts rest (loop (idle reason s c))
      else reply_to acts rest (handle digits w reason false s c (text_of o))

  -- Nothing where the input ends inside a packet, too.
  unfoldable pub loop_round : Probe → Server → Client → List Input → Option Wire
  unfolding on_result
  loop_round w s c input = let (acts, r) = getpacket (settings c) input in on_result w s c acts r

module _ (digits : ℕ → List ℕ) (remote_som remote_eom : ℕ) where
  -- Rounds, each with what the probe firmware returns in it and what `target_halt_poll` gives.
  unfoldable pub loop_turns : List (Reason × Probe) → Server → Client → List Input → Option Wire
  unfolding loop_round
  loop_turns [] s c input =
      some (record { server = s; client = c; effects = []; chars = []; rest = input })
  loop_turns ((reason, w) ∷ turns) s c input =
      elim (loop_round digits reason remote_som remote_eom w s c input) [
        | none ↦ none
        | some a ↦ and_then a.effects a.chars (loop_turns turns a.server a.client a.rest)
      ]
