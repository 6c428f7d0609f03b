-- ===== src/Tests/Packet.antt =====
-- Packets of main/gdb_packet.cpp on concrete inputs.
use blackmagic_espidf.Base.{ℕ, ◌≡◌, refl, false, List, [], ◌∷◌, ◌++◌, map, arith}
use blackmagic_espidf.Base.Text.{strtol16}
use blackmagic_espidf.Packet.Encode.{next_char, put_chars, frame, putpacket}
use blackmagic_espidf.Packet.Decode.{
  Input, Settings, Action, char, quiet, packet, control, nothing, returned, start_char, getpacket,
}
use blackmagic_espidf.Packet.Frame.{getpacket-frame, ack}
use blackmagic_espidf.Packet.Receive.{RunFits, AreDelimiters, getpacket-fits}
use blackmagic_espidf.Packet.Resend.{copies, damaged_all, answered, resend_delivers}

-- REMOTE_SOM and REMOTE_EOM are `!` and `#`.
abbrev settings : Settings
settings = record { size = 4; no_ack_mode = false; remote_som = b'!'; remote_eom = b'#' }

abbrev payload : List ℕ
payload = b'}' ∷ b'*' ∷ b'm' ∷ 200 ∷ []

abbrev behind : List Input
behind = char b'+' ∷ quiet ∷ []

-- `$OK#9A`
frame_test : frame b'$' (b'O' ∷ b'K' ∷ []) ≡ b'$' ∷ b'O' ∷ b'K' ∷ b'#' ∷ b'9' ∷ b'A' ∷ []
unfolding frame next_char
frame_test = refl

interrupt_test :
    getpacket settings (char b'x' ∷ char 3 ∷ behind) ≡ ([], returned (control 3) behind)
unfolding getpacket start_char
interrupt_test = refl

quiet_test : getpacket settings (quiet ∷ behind) ≡ ([], returned nothing behind)
unfolding getpacket
quiet_test = refl

getpacket-frame_example :
    getpacket settings (map char (frame b'$' payload) ++ behind)
    ≡ (ack settings, returned (packet payload) behind)
getpacket-frame_example =
    getpacket-frame settings payload behind (omega arith) (omega arith) (omega arith)

-- Five characters for a buffer of four.
getpacket-fits_example :
    RunFits settings (getpacket settings (map char (frame b'$' (b'a' ∷ payload)) ++ behind))
getpacket-fits_example = getpacket-fits settings (map char (frame b'$' (b'a' ∷ payload)) ++ behind)

delimiters : AreDelimiters settings
delimiters = record {
  som_no_timeout = omega arith;
  som_no_eot = omega arith;
  som_no_interrupt = omega arith;
  som_no_start = omega arith;
  eom_no_som = omega arith;
  eom_no_start = omega arith;
}

abbrev spoilt : List (ℕ × ℕ)
spoilt = (b'0', b'0') ∷ (b'?', b'1') ∷ []

resend_delivers_example :
    (acts : List Action) × (getpacket settings
        (map char (damaged_all payload spoilt ++ frame b'$' payload) ++ behind)
      ≡ (acts, returned (packet payload) behind))
    × ((putpacket false b'$' payload (answered acts)).0 ≡ copies 3 (frame b'$' payload))
unfolding put_chars next_char strtol16
resend_delivers_example =
    resend_delivers settings payload spoilt behind refl (omega arith) (omega arith) (omega arith)
      (refl, (refl, tt)) (omega arith)
