-- ===== src/Tests/Update.antt =====
-- Updates of the firmware by main/ota-tftp.c on concrete datagrams.
use blackmagic_espidf.Base.{
  ℕ, ◌+◌, ◌<◌, ◌≡◌, refl, true, false, none, some, List, [], ◌∷◌, ◌++◌, ◌==◌, if◌then◌else◌, arith,
}
use blackmagic_espidf.Base.Text.{codes, str_eq}
use blackmagic_espidf.Tftp.Packet.{Netbuf, err_ok, err_use, ErrT, ack_packet}
use blackmagic_espidf.Tftp.Field.{get_field, field_loop}
use blackmagic_espidf.Tftp.Receive.{Recv, datagram, Action, World, returned, receive_data}
use blackmagic_espidf.Tftp.Rounds.{IsHealthy, written}
use blackmagic_espidf.Tftp.Transfer.{Transfer, last}
use blackmagic_espidf.Tftp.Server.{
  Effect, listening, netconn_delete, is_text, serve, System, download_returned, ota_tftp_init,
  ota_tftp_download,
}
use blackmagic_espidf.Tftp.Update.{flashed, IsUpdate, serve-updates, serve-restarts}
use blackmagic_espidf.Tftp.Foreign.{IsForeign, other_mode, serve-foreign}
use blackmagic_espidf.Tftp.Client.{IsReady, ota_tftp_download-completes}

abbrev world : World
world = record { junk = 0; send_result = λ _. err_ok; write_result = λ _ _. true; callback = false }

world-IsHealthy : IsHealthy world
world-IsHealthy = record { sends = λ p. refl; writes = λ n chunk. refl }

abbrev request : Netbuf
request = (0 ∷ 2 ∷ (codes "firmware.bin" ++ 0 ∷ (codes "octet" ++ 0 ∷ []))) ∷ []

request-IsUpdate : IsUpdate world request
unfolding is_text str_eq get_field field_loop
request-IsUpdate = record { long = omega arith; opcode = refl; file = refl; mode = refl }

-- The mode is compared with its case.
upper_case : is_text (some (codes "OCTET" ++ 0 ∷ [])) (codes "octet") ≡ false
unfolding is_text str_eq
upper_case = refl

abbrev block : List ℕ
block = 0 ∷ 3 ∷ 0 ∷ 1 ∷ 6 ∷ 7 ∷ []

abbrev events : List Recv
events = datagram 5 (block ∷ []) ∷ []

transfer : Transfer [] 1 10 (6 ∷ 7 ∷ []) events
transfer =
    last 5 block [] (record { small = omega arith; header = omega arith; content = refl })
      (omega arith)

-- A request with a mode of mail.
abbrev mail_request : Netbuf
mail_request = (0 ∷ 2 ∷ (codes "firmware.bin" ++ 0 ∷ (codes "Mail" ++ 0 ∷ []))) ∷ []

mail-IsForeign : IsForeign world mail_request
unfolding get_field field_loop str_eq
mail-IsForeign = other_mode refl

serve-foreign_example :
    ((serve world true (datagram 5 mail_request ∷ events)).1 ≡ listening events)
    × (flashed (serve world true (datagram 5 mail_request ∷ events)).0 ≡ [])
serve-foreign_example = serve-foreign world true 5 mail_request events mail-IsForeign

serve-restarts_example :
    IsUpdate world request
    × (world.send_result (ack_packet 0) ≡ err_ok)
    × (true ≡ true)
    × ((acts : List Action) × (n : ℕ) × (rest : List Recv) × (receive_data world none events
          ≡ (acts, returned err_ok n rest))
        × (flashed (serve world true (datagram 5 request ∷ events)).0 ≡ written acts))
serve-restarts_example =
    serve-restarts world true 5 request events
      (serve-updates world 5 request world-IsHealthy request-IsUpdate transfer).0

-- Port 69 is in use, port 70 is not.
abbrev bind : ℕ → ErrT
bind n = if n == 69 then err_use else err_ok

abbrev system : System
system = record {
  partitions = record {
    configured_part = some 1;
    running_part = some 1;
    update_part = some 2;
    begins = true;
  };
  has_socket = true;
  bind = bind;
  host = (err_ok, 5);
}

system-IsReady : IsReady system 69 1 5
unfolding ota_tftp_init
system-IsReady = record {
  inits = refl;
  socket = refl;
  few = omega arith;
  used = λ i less. used_below i less;
  free = refl;
  known = refl;
}
  where
    used_below : (i : ℕ) → i < 1 → bind (69 + i) ≡ err_use
    used_below i less = ground arith

ota_tftp_download-completes_example :
    (effects : List Effect) × (ota_tftp_download world system 1000 69 (codes "a.bin") events
      ≡ download_returned err_ok (effects ++ netconn_delete ∷ []))
    × (flashed (effects ++ netconn_delete ∷ []) ≡ 6 ∷ 7 ∷ [])
ota_tftp_download-completes_example =
    ota_tftp_download-completes world system 1000 69 1 5 (codes "a.bin") world-IsHealthy
      system-IsReady transfer
