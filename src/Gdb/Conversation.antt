-- ===== src/Gdb/Conversation.antt =====
-- GDB and the server of main/gdb_main.cpp over a connection that damages nothing, with waits: rounds in
-- which no character comes, between the requests.
use blackmagic_espidf.Base.{
  ℕ, ◌≤◌, ◌<◌, ◌≡◌, ◌≢◌, refl, ap, ◌∙◌, false, Option, none, some, List, [], ◌∷◌, ◌++◌,
  append_assoc, map, length, ◌==◌, arith,
}
use blackmagic_espidf.Base.Bytes.{AreBytes}
use blackmagic_espidf.Packet.Encode.{frame}
use blackmagic_espidf.Packet.Decode.{Input, Action, char, quiet, getpacket}
use blackmagic_espidf.Packet.Frame.{ack, getpacket-frame}
use blackmagic_espidf.Packet.Resend.{answered}
use blackmagic_espidf.Gdb.Poll.{Reason}
use blackmagic_espidf.Gdb.State.{Server, Client, Probe}
use blackmagic_espidf.Gdb.Server.{Next, loop, leave, handle, idle}
use blackmagic_espidf.Gdb.Wire.{
  Wire, reply_to, settings, on_result, loop_round, and_then, loop_turns,
}
use blackmagic_espidf.Gdb.Sending.{frames, awaited, send_all-frames}

-- A request, or a wait of 20 ms in `gdb_getpacket`; with what the probe firmware returns in the round.
pub data Turn : Type 0 where
  ask : Reason → Probe → (request : List ℕ) → Turn
  wait : Reason → Probe → Turn

-- A request is of bytes, and of as many as the buffer takes, but not none.
abbrev pub AreTurns : List Turn → Type 0
AreTurns [] = Unit
AreTurns (ask reason w p ∷ ts) = AreBytes p × (0 < length p) × (length p ≤ 1024) × AreTurns ts
AreTurns (wait reason w ∷ ts) = AreTurns ts

abbrev pub round_of : Turn → Reason × Probe
round_of (ask reason w p) = (reason, w)
round_of (wait reason w) = (reason, w)

abbrev arrives : Turn → List Input
arrives (ask reason w p) = map char (frame b'$' p)
arrives (wait reason w) = quiet ∷ []

module _ (digits : ℕ → List ℕ) (remote_som remote_eom : ℕ) where
  -- What the server does in a turn.
  abbrev next_of : Turn → Server → Client → Next
  next_of (ask reason w p) s c = handle digits w reason false s c p
  next_of (wait reason w) s c = loop (idle reason s c)

  -- The acknowledgement of a request.
  abbrev acknowledges : Turn → Client → List Action
  acknowledges (ask reason w p) c = ack (settings digits reason remote_som remote_eom c)
  acknowledges (wait reason w) c = []

  -- What comes from GDB: the requests, and an acknowledgement of each packet that it is sent.
  unfoldable pub gdb_turns : List Turn → Server → Client → List Input
  gdb_turns [] s c = []
  gdb_turns (t ∷ ts) s c = arrives t ++ (elim (next_of t s c) [
    | leave ↦ []
    | loop o ↦ map char (awaited o.client.no_ack_mode o.effects) ++ gdb_turns ts o.server o.client
  ])

  -- What the server does, turn by turn.
  unfoldable pub talk : List Turn → Server → Client → List Input → Option Wire
  talk [] s c rest = some (record { server = s; client = c; effects = []; chars = []; rest = rest })
  talk (t ∷ ts) s c rest = elim (next_of t s c) [
    | leave ↦ none
    | loop o ↦
        and_then o.effects (answered (acknowledges t c) ++ frames o.effects)
          (talk ts o.server o.client rest)
  ]

  abbrev round : Turn → Server → Client → List Input → Option Wire
  round t s c input =
      loop_round digits (round_of t).0 remote_som remote_eom (round_of t).1 s c input

  round-request :
      (reason : Reason) (w : Probe) (p : List ℕ) (s : Server) (c : Client) (rest : List Input)
      → remote_som ≢ b'$'
      → AreBytes p
      → 0 < length p
      → length p ≤ 1024
      → loop_round digits reason remote_som remote_eom w s c (map char (frame b'$' p) ++ rest)
        ≡ reply_to
            (ack (settings digits reason remote_som remote_eom c))
            rest
            (handle digits w reason false s c p)
  unfolding loop_round on_result
  round-request reason w p s c rest som bytes some_length fits =
      let e : (length p == 0) ≡ false = ground arith in
      rw (getpacket-frame (settings digits reason remote_som remote_eom c) p rest som bytes fits, e)
        refl

  round-turn :
      (t : Turn) (s : Server) (c : Client) (rest : List Input)
      → remote_som ≢ b'$'
      → AreTurns (t ∷ [])
      → round t s c (arrives t ++ rest) ≡ reply_to (acknowledges t c) rest (next_of t s c)
  round-turn (ask reason w p) s c rest som h = round-request reason w p s c rest som h.0 h.1 h.2
  round-turn (wait reason w) s c rest som h = unfold loop_round on_result getpacket in refl

  abbrev turns_behind : List Turn → Option Wire → Option Wire
  turns_behind ts r = elim r [
    | none ↦ none
    | some a ↦
        and_then a.effects a.chars
          (loop_turns digits remote_som remote_eom (map round_of ts) a.server a.client a.rest)
  ]

  abbrev behind : List Turn → Next → List Input
  behind ts n = elim n [
    | leave ↦ []
    | loop o ↦ map char (awaited o.client.no_ack_mode o.effects) ++ gdb_turns ts o.server o.client
  ]

  turns_behind-reply_to :
      (ts : List Turn) (acts : List Action) (rest : List Input)
      → ((s' : Server) (c' : Client)
          → loop_turns digits remote_som remote_eom
              (map round_of ts)
              s'
              c'
              (gdb_turns ts s' c' ++ rest)
            ≡ talk ts s' c' rest)
      → (n : Next)
      → turns_behind ts (reply_to acts (behind ts n ++ rest) n) ≡ (elim n [
        | leave ↦ none
        | loop o ↦
            and_then o.effects (answered acts ++ frames o.effects) (talk ts o.server o.client rest)
      ])
  unfolding reply_to
  turns_behind-reply_to ts acts rest ih leave = refl
  turns_behind-reply_to ts acts rest ih (loop o) =
      let gdb : List Input = gdb_turns ts o.server o.client in
      let acks : List Input = map char (awaited o.client.no_ack_mode o.effects) in
      ap (λ input. turns_behind ts (reply_to acts input (loop o))) (append_assoc acks gdb rest)
      ∙ ap
          (λ r. turns_behind ts (
            some (record {
              server = o.server;
              client = o.client;
              effects = o.effects;
              chars = answered acts ++ r.0;
              rest = r.1;
            })))
          (send_all-frames o.client.no_ack_mode o.effects (gdb ++ rest))
      ∙ ap (and_then o.effects (answered acts ++ frames o.effects)) (ih o.server o.client)

  -- Over a connection that damages nothing, the loop does what the turns say, whatever waits there are
  -- between the requests: each request that GDB frames, of 1 to 1024 bytes, is handled once and in order,
  -- each wait polls the target and reports its stop, the answers are framed and sent, and the input
  -- behind is left unread; in either mode of acknowledgement, and behind a change of the mode. Condition:
  -- GDB acknowledges each packet that it is sent, if it is asked to.
  pub loop_turns_refine :
      (ts : List Turn) (s : Server) (c : Client) (rest : List Input)
      → remote_som ≢ b'$'
      → AreTurns ts
      → loop_turns digits remote_som remote_eom (map round_of ts) s c (gdb_turns ts s c ++ rest)
        ≡ talk ts s c rest
  unfolding loop_turns talk gdb_turns
  loop_turns_refine [] s c rest som h = refl
  loop_turns_refine (t ∷ ts) s c rest som h =
      let next : Next = next_of t s c in
      ap (λ input. turns_behind ts (round t s c input))
        (append_assoc (arrives t) (behind ts next) rest)
      ∙ ap (turns_behind ts) (round-turn t s c (behind ts next ++ rest) som (first t h))
      ∙ turns_behind-reply_to ts (acknowledges t c) rest
          (λ s' c'. loop_turns_refine ts s' c' rest som (others t h)) next
    where
      first : (t : Turn) → AreTurns (t ∷ ts) → AreTurns (t ∷ [])
      first (ask reason w p) h = (h.0, h.1, h.2, tt)
      first (wait reason w) h = tt

      others : (t : Turn) → AreTurns (t ∷ ts) → AreTurns ts
      others (ask reason w p) h = h.3
      others (wait reason w) h = h
