-- ===== src/Gdb/Notified.antt =====
-- A stop in non-stop mode on the wire: `gdb_putnotifpacket_f` of main/gdb_packet.cpp, which waits for
-- acknowledgements though GDB sends none for a notification.
use blackmagic_espidf.Base.{
  ℕ, ◌≡◌, refl, ap, ◌∙◌, Bool, true, false, Option, some, List, [], ◌∷◌, ◌++◌, append-nil, sym, map,
  length, drop, ◌-◌, arith, replicate, if◌then◌else◌,
}
use blackmagic_espidf.Packet.Encode.{frame, putpacket, send_until_acked}
use blackmagic_espidf.Packet.Decode.{Input, quiet, getpacket}
use blackmagic_espidf.Packet.Resend.{copies}
use blackmagic_espidf.Gdb.Poll.{Reason, Sent, notify, report, is_halted}
use blackmagic_espidf.Gdb.State.{Client, Probe, Pointer, call, target_halt_poll, send, Out}
use blackmagic_espidf.Gdb.Server.{loop, idle}
use blackmagic_espidf.Gdb.Stepping.{on_target, stopped, idle-stopped}
use blackmagic_espidf.Gdb.Registers.{replies}
use blackmagic_espidf.Gdb.Sending.{length-heard}
use blackmagic_espidf.Gdb.Wire.{Wire, heard, send_packet, send_all, reply_to, on_result, loop_round}

-- No acknowledgement: a frame for each of the four tries, behind a wait each.
send_packet-unacked :
    (pktstart : ℕ) (text : List ℕ) (rest : List Input)
    → send_packet false pktstart text (replicate 4 quiet ++ rest)
      ≡ (copies 4 (frame pktstart text), rest)
unfolding send_packet putpacket send_until_acked
send_packet-unacked pktstart text rest =
    let four : length (replicate 4 quiet ++ rest) - length (map heard rest) ≡ 4 =
      omega (arith, length-heard rest) in
    let f = frame pktstart text in
    ap
      (λ l. (
        f ++ (f ++ (f ++ l)),
        drop (length (replicate 4 quiet ++ rest) - length (map heard rest))
            (replicate 4 quiet ++ rest),
      ))
      (sym (append-nil f))
    ∙ ap (λ n. (copies 4 f, drop n (replicate 4 quiet ++ rest))) four

module _ (digits : ℕ → List ℕ) (remote_som remote_eom : ℕ) where
  -- In non-stop mode with acknowledgements, the round in which a target that runs has stopped sends
  -- its notification four times if no character comes meanwhile, as GDB acknowledges no
  -- notification: `gdb_putnotifpacket_f` waits for a `+` behind each. The round ends behind these
  -- four waits, and the run with it.
  pub loop_round-repeats :
      (w : Probe) (reason : Reason) (text : List ℕ) (t : ℕ) (last : Pointer) (mode : Bool)
      → (c : Client) (rest : List Input) → c.run_state ≡ true
      → c.non_stop ≡ true
      → c.no_ack_mode ≡ false
      → is_halted reason ≡ true
      → notify reason ≡ (b'%', text) ∷ []
      → loop_round digits reason remote_som remote_eom w
          (on_target t last mode)
          c
          (quiet ∷ replicate 4 quiet ++ rest)
        ≡ some (record {
          server = on_target t last mode;
          client = stopped c;
          effects = call target_halt_poll (some t) ∷ send (b'%', text) ∷ [];
          chars = copies 4 (frame b'%' text);
          rest = rest;
        })
  unfolding loop_round on_result
  loop_round-repeats w reason text t last mode c rest on non_stop acks stops sent =
      let input = replicate 4 quiet ++ rest in
      round
      ∙ ap (λ o. reply_to [] input (loop o)) (idle-stopped t last mode c reason on stops)
      ∙ ap (λ b. reply_to [] input (loop (stop (if b then notify reason else report reason))))
          non_stop
      ∙ ap (λ l. reply_to [] input (loop (stop l))) sent
      ∙ unfold reply_to send_all in
        ap (λ b. end (send_packet b b'%' text input)) acks
        ∙ ap end (send_packet-unacked b'%' text rest)
        ∙ ap (λ l. ended (l, rest)) (append-nil (copies 4 (frame b'%' text)))
    where
      round :
          loop_round digits reason remote_som remote_eom w
            (on_target t last mode)
            c
            (quiet ∷ replicate 4 quiet ++ rest)
          ≡ reply_to [] (replicate 4 quiet ++ rest) (loop (idle reason (on_target t last mode) c))
      round = unfold loop_round on_result getpacket in refl

      stop : List Sent → Out
      stop l = record {
        server = on_target t last mode;
        client = stopped c;
        effects = call target_halt_poll (some t) ∷ replies l;
      }

      ended : List ℕ × List Input → Option Wire
      ended r = some (record {
        server = on_target t last mode;
        client = stopped c;
        effects = call target_halt_poll (some t) ∷ send (b'%', text) ∷ [];
        chars = r.0;
        rest = r.1;
      })

      end : List ℕ × List Input → Option Wire
      end r = ended (r.0 ++ [], r.1)
