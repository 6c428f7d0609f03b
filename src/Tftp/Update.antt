-- ===== src/Tftp/Update.antt =====
-- Firmware updates: what makes `tftp_task` restart, and what it has written then.
use blackmagic_espidf.Base.{
  ℕ, ◌%◌, ◌^◌, ◌≤◌, ◌≡◌, ◌⊎◌, append_assoc, refl, sym, ◌∙◌, ap, Bool, true, false, none, List, [],
  ◌∷◌, ◌++◌, map, length, ltb, ◌==◌, ==_iff, Bool-cases, inl, inr, arith,
}
use blackmagic_espidf.Tftp.Packet.{
  ErrT, err_ok, err_timeout, err_val, err_if, err_use, err, Netbuf, netbuf_len, read_u16_n, op_wrq,
  firmware_file, octet_mode, ack_packet,
}
use blackmagic_espidf.Tftp.Field.{get_field}
use blackmagic_espidf.Tftp.Receive.{
  Recv, datagram, Action, Outcome, returned, pending, undefined, send, netbuf_delete, connect,
  disconnect, World, receive_data,
}
use blackmagic_espidf.Tftp.Rounds.{IsHealthy, written, written-append}
use blackmagic_espidf.Tftp.Transfer.{Transfer, receive_data-completes}
use blackmagic_espidf.Tftp.Server.{
  Effect, net, set_recvtimeout, ota_init, set_boot_partition, restart, netconn_delete, After,
  listening, restarted, is_text, is_ok, finish, then_effects, start_transfer, on_request, serve,
}

-- The bytes that a list of effects writes to the flash.
abbrev pub flashed : List Effect → List ℕ
flashed [] = []
flashed (net a ∷ es) = written (a ∷ []) ++ flashed es
flashed (set_recvtimeout n ∷ es) = flashed es
flashed (ota_init ∷ es) = flashed es
flashed (set_boot_partition ∷ es) = flashed es
flashed (restart ∷ es) = flashed es
flashed (netconn_delete ∷ es) = flashed es

pub flashed-net :
    (acts : List Action) (es : List Effect)
    → flashed es ≡ []
    → flashed (map net acts ++ es) ≡ written acts
flashed-net [] es h = h
flashed-net (a ∷ acts) es h =
    ap (λ l. written (a ∷ []) ++ l) (flashed-net acts es h) ∙ sym (written-append (a ∷ []) acts)

-- A request that the server accepts.
pub record IsUpdate (w : World) (b : Netbuf) : Type 0 where
  pub long : 6 ≤ netbuf_len b % 2 ^ 16
  pub opcode : read_u16_n w.junk b 0 ≡ op_wrq
  pub file : is_text (get_field 0 b) firmware_file ≡ true
  pub mode : is_text (get_field 1 b) octet_mode ≡ true

request-accepted :
    (w : World) (boots : Bool) (from : ℕ) (b : Netbuf) (rs : List Recv)
    → IsUpdate w b
    → on_request w boots from b rs ≡ start_transfer w boots from rs
unfolding on_request
request-accepted w boots from b rs u = ground (arith, u.long, u.opcode, u.file, u.mode)

-- What the server does between an accepted request and the transfer.
abbrev prelude : ℕ → List Effect
prelude from =
    set_recvtimeout 0
    ∷ net (connect from)
    ∷ net netbuf_delete
    ∷ net (send (ack_packet 0))
    ∷ ota_init
    ∷ set_recvtimeout 10000
    ∷ []

module _ (w : World) (boots : Bool) (from : ℕ) (b : Netbuf) (rs : List Recv)
    (u : IsUpdate w b) where
  serve-started :
      w.send_result (ack_packet 0) ≡ err_ok
      → serve w boots (datagram from b ∷ rs)
        ≡ then_effects (prelude from) (finish boots (receive_data w none rs))
  unfolding serve start_transfer
  serve-started sent = rw (request-accepted w boots from b rs u, sent) refl

  serve-unsent :
      is_ok (w.send_result (ack_packet 0)) ≡ false
      → (serve w boots (datagram from b ∷ rs)).1 ≡ listening rs
  unfolding serve start_transfer
  serve-unsent unsent = rw (request-accepted w boots from b rs u, unsent) refl

finish-boots :
    (acts : List Action) (n : ℕ) (rest : List Recv)
    → ((finish true (acts, returned err_ok n rest)).1 ≡ restarted)
      × (flashed (finish true (acts, returned err_ok n rest)).0 ≡ written acts)
unfolding finish
finish-boots acts n rest = (
  refl,
  rw append_assoc (flashed-net acts (net disconnect ∷ set_boot_partition ∷ restart ∷ []) refl),
)

pub serve-updates :
    (w : World) (from : ℕ) (b : Netbuf) {rest rs : List Recv} {file : List ℕ}
    → IsHealthy w
    → IsUpdate w b
    → Transfer rest 1 10 file rs
    → ((serve w true (datagram from b ∷ rs)).1 ≡ restarted)
      × (flashed (serve w true (datagram from b ∷ rs)).0 ≡ file)
serve-updates w from b {rest} {rs} {file} healthy u t =
    let (acts, e, wr) = receive_data-completes w none healthy t in
    let whole : serve w true (datagram from b ∷ rs)
        ≡ then_effects (prelude from) (finish true (acts, returned err_ok (length file) rest)) =
      serve-started w true from b rs u (healthy.sends (ack_packet 0))
      ∙ ap (λ x. then_effects (prelude from) (finish true x)) e in
    let (boot, flash) = finish-boots acts (length file) rest in
    (ap (λ p. p.1) whole ∙ boot, ap (λ p. flashed p.0) whole ∙ flash ∙ wr)

-- What one round of `tftp_task` does with a datagram that is no update request: it writes nothing,
-- restarts nothing, and listens on. Any datagram is such a one or an update request.
pub serve-refuses :
    (w : World) (boots : Bool) (from : ℕ) (b : Netbuf) (rs : List Recv)
    → IsUpdate w b
      ⊎ (((serve w boots (datagram from b ∷ rs)).1 ≡ listening rs)
          × (flashed (serve w boots (datagram from b ∷ rs)).0 ≡ []))
unfolding serve on_request
serve-refuses w boots from b rs = elim (Bool-cases (ltb (netbuf_len b % 2 ^ 16) 6)) [
  | inl short ↦ rw short (inr (refl, refl))
  | inr long ↦ elim (Bool-cases (read_u16_n w.junk b 0 == op_wrq)) [
    | inr other ↦ rw (long, other) (inr (refl, refl))
    | inl opcode ↦ elim (Bool-cases (is_text (get_field 0 b) firmware_file)) [
      | inr other ↦ rw (long, opcode, other) (inr (refl, refl))
      | inl file ↦ elim (Bool-cases (is_text (get_field 1 b) octet_mode)) [
        | inr other ↦ rw (long, opcode, file, other) (inr (refl, refl))
        | inl mode ↦ inl (record {
          long = ground arith;
          opcode = (==_iff _ _).0 opcode;
          file = file;
          mode = mode;
        })
      ]
    ]
  ]
]

is_ok_sound : (e : ErrT) → is_ok e ≡ true → e ≡ err_ok
is_ok_sound err_ok h = refl
is_ok_sound err_timeout h = cc
is_ok_sound err_val h = cc
is_ok_sound err_if h = cc
is_ok_sound err_use h = cc
is_ok_sound (err n) h = cc

abbrev Finished : Bool → List Action × Outcome → Type 0
Finished boots x =
    (boots ≡ true)
    × ((acts : List Action) × (n : ℕ) × (rest : List Recv) × (x ≡ (acts, returned err_ok n rest))
        × (flashed (finish boots x).0 ≡ written acts))

finish-restarts :
    (boots : Bool) (x : List Action × Outcome) → (finish boots x).1 ≡ restarted → Finished boots x
unfolding finish
finish-restarts true (acts, returned err_ok n rest) h =
    (refl, (acts, n, rest, refl, (finish-boots acts n rest).1))
finish-restarts false (acts, returned err_ok n rest) h = cc
finish-restarts boots (acts, returned err_timeout n rest) h = cc
finish-restarts boots (acts, returned err_val n rest) h = cc
finish-restarts boots (acts, returned err_if n rest) h = cc
finish-restarts boots (acts, returned err_use n rest) h = cc
finish-restarts boots (acts, returned (err k) n rest) h = cc
finish-restarts boots (acts, pending) h = cc
finish-restarts boots (acts, undefined) h = cc

no_restart : {rs : List Recv} {a : After} → a ≡ listening rs → a ≡ restarted → ⊥
no_restart e h = cc

-- The probe restarts only into a complete update: if a round of `tftp_task` restarts on a datagram,
-- then this was an update request, its acknowledgement was sent, the flash was marked for booting,
-- and the transfer read behind it has ended with ERR_OK; what the round has written is what that
-- transfer has written.
pub serve-restarts :
    (w : World) (boots : Bool) (from : ℕ) (b : Netbuf) (rs : List Recv)
    → (serve w boots (datagram from b ∷ rs)).1 ≡ restarted
    → IsUpdate w b
      × (w.send_result (ack_packet 0) ≡ err_ok)
      × (boots ≡ true)
      × ((acts : List Action) × (n : ℕ) × (rest : List Recv) × (receive_data w none rs
            ≡ (acts, returned err_ok n rest))
          × (flashed (serve w boots (datagram from b ∷ rs)).0 ≡ written acts))
serve-restarts w boots from b rs h = elim (serve-refuses w boots from b rs) [
  | inr refused ↦ absurd (no_restart refused.0 h)
  | inl u ↦ elim (Bool-cases (is_ok (w.send_result (ack_packet 0)))) [
    | inr unsent ↦ absurd (no_restart (serve-unsent w boots from b rs u unsent) h)
    | inl sent ↦
        let ok : w.send_result (ack_packet 0) ≡ err_ok = is_ok_sound _ sent in
        let whole : serve w boots (datagram from b ∷ rs)
            ≡ then_effects (prelude from) (finish boots (receive_data w none rs)) =
          serve-started w boots from b rs u ok in
        let (marked, (acts, n, rest, e, flash)) =
          finish-restarts boots (receive_data w none rs) (sym (ap (λ p. p.1) whole) ∙ h) in
        (u, ok, marked, (acts, n, rest, e, ap (λ p. flashed p.0) whole ∙ flash))
  ]
]
