-- ===== src/Gdb/Sending.antt =====
-- Replies sent where every packet is acknowledged: `gdb_putpacket` in `GDB::gdb_main_loop`,
-- main/gdb_main.cpp.
use blackmagic_espidf.Base.{
  ℕ, suc, ◌-◌, ◌≡◌, refl, ap, Bool, true, false, List, [], ◌∷◌, ◌++◌, map, map-append, append_assoc,
  length, drop, ◌∙◌, arith,
}
use blackmagic_espidf.Packet.Encode.{putpacket, put_notification, send_until_acked, frame}
use blackmagic_espidf.Packet.Decode.{Input, char}
use blackmagic_espidf.Gdb.State.{Effect, call, command_process, send, notification}
use blackmagic_espidf.Gdb.Wire.{heard, send_packet, send_all}

-- What is sent, once each.
unfoldable pub frames : List Effect → List ℕ
frames [] = []
frames (call f p ∷ es) = frames es
frames (command_process p text ∷ es) = frames es
frames (send (pktstart, text) ∷ es) = frame pktstart text ++ frames es
frames (notification text ∷ es) = put_notification text ++ frames es

-- An acknowledgement for each packet that `gdb_putpacket` sends.
unfoldable pub acknowledged : List Effect → List ℕ
acknowledged [] = []
acknowledged (call f p ∷ es) = acknowledged es
acknowledged (command_process p text ∷ es) = acknowledged es
acknowledged (send (pktstart, text) ∷ es) = b'+' ∷ acknowledged es
acknowledged (notification text ∷ es) = acknowledged es

-- The acknowledgements that GDB sends, in either mode.
abbrev pub awaited : (no_ack_mode : Bool) → List Effect → List ℕ
awaited true es = []
awaited false es = acknowledged es

pub length-heard : (xs : List Input) → length (map heard xs) ≡ length xs
length-heard [] = refl
length-heard (x ∷ xs) = ap suc (length-heard xs)

drop_same : (xs : List Input) → drop (length xs - length (map heard xs)) xs ≡ xs
drop_same xs =
    let e : length xs - length (map heard xs) ≡ 0 = omega (arith, length-heard xs) in
    ap (λ n. drop n xs) e

drop_one :
    (x : Input) (xs : List Input) → drop (suc (length xs) - length (map heard xs)) (x ∷ xs) ≡ xs
drop_one x xs =
    let e : suc (length xs) - length (map heard xs) ≡ 1 = omega (arith, length-heard xs) in
    ap (λ n. drop n (x ∷ xs)) e

send_packet-silent :
    (pktstart : ℕ) (text : List ℕ) (rest : List Input)
    → send_packet true pktstart text rest ≡ (frame pktstart text, rest)
unfolding send_packet putpacket send_until_acked
send_packet-silent pktstart text rest = ap (λ l. (frame pktstart text, l)) (drop_same rest)

send_packet-acked :
    (pktstart : ℕ) (text : List ℕ) (rest : List Input)
    → send_packet false pktstart text (char b'+' ∷ rest) ≡ (frame pktstart text, rest)
unfolding send_packet putpacket send_until_acked
send_packet-acked pktstart text rest =
    ap (λ l. (frame pktstart text, l)) (drop_one (char b'+') rest)

pub wire-append :
    (xs ys : List ℕ) (rest : List Input)
    → map char (xs ++ ys) ++ rest ≡ map char xs ++ (map char ys ++ rest)
wire-append xs ys rest = simp (map-append, append_assoc)

send_all-packet :
    (no_ack_mode : Bool) (pktstart : ℕ) (text : List ℕ) (es : List Effect)
    → (input behind rest : List Input)
    → send_packet no_ack_mode pktstart text input ≡ (frame pktstart text, behind)
    → send_all no_ack_mode es behind ≡ (frames es, rest)
    → send_all no_ack_mode (send (pktstart, text) ∷ es) input
      ≡ (frame pktstart text ++ frames es, rest)
unfolding send_all
send_all-packet no_ack_mode pktstart text es input behind rest sent others =
    ap
      (λ (r : List ℕ × List Input).
        (r.0 ++ (send_all no_ack_mode es r.1).0, (send_all no_ack_mode es r.1).1))
      sent
    ∙ ap (λ (r : List ℕ × List Input). (frame pktstart text ++ r.0, r.1)) others

pub send_all-frames :
    (no_ack_mode : Bool) (es : List Effect) (rest : List Input)
    → send_all no_ack_mode es (map char (awaited no_ack_mode es) ++ rest) ≡ (frames es, rest)
unfolding send_all frames acknowledged
send_all-frames true [] rest = refl
send_all-frames false [] rest = refl
send_all-frames true (call f p ∷ es) rest = send_all-frames true es rest
send_all-frames false (call f p ∷ es) rest = send_all-frames false es rest
send_all-frames true (command_process p text ∷ es) rest = send_all-frames true es rest
send_all-frames false (command_process p text ∷ es) rest = send_all-frames false es rest
send_all-frames true (notification text ∷ es) rest = rw (send_all-frames true es rest) refl
send_all-frames false (notification text ∷ es) rest = rw (send_all-frames false es rest) refl
send_all-frames true (send (pktstart, text) ∷ es) rest =
    send_all-packet true pktstart text es rest rest rest (send_packet-silent pktstart text rest)
      (send_all-frames true es rest)
send_all-frames false (send (pktstart, text) ∷ es) rest =
    let acks : List Input = map char (acknowledged es) ++ rest in
    send_all-packet false pktstart text es (char b'+' ∷ acks) acks rest
      (send_packet-acked pktstart text acks) (send_all-frames false es rest)
