-- ===== src/Tftp/Client.antt =====
-- What `ota_tftp_download` of main/ota-tftp.c comes to: the ports that it tries, and a whole download.
use blackmagic_espidf.Base.{
  ℕ, zero, suc, ◌+◌, ◌≤◌, ◌<◌, ◌≡◌, refl, ◌∙◌, ap, true, some, List, [], ◌∷◌, ◌++◌, map, arith,
}
use blackmagic_espidf.Tftp.Packet.{ErrT, err_ok, err_use, rrq_packet}
use blackmagic_espidf.Tftp.Receive.{Recv, send, connect, World, receive_data}
use blackmagic_espidf.Tftp.Rounds.{IsHealthy}
use blackmagic_espidf.Tftp.Transfer.{Transfer, receive_data-completes}
use blackmagic_espidf.Tftp.Server.{
  Effect, net, set_recvtimeout, netconn_delete, System, download_returned, bind_from, ending,
  requested, resolved, ota_tftp_init, ota_tftp_download,
}
use blackmagic_espidf.Tftp.Update.{flashed, flashed-net}

-- The search for a local port passes the ports in use, ten at most, and ends at the first other
-- one, whose result it returns.
bind_from-first_free :
    (bind : ℕ → ErrT) (left port k : ℕ)
    → k ≤ left
    → ((i : ℕ) → i < k → bind (port + i) ≡ err_use)
    → bind (port + k) ≡ err_ok
    → bind_from bind left port ≡ err_ok
unfolding bind_from
bind_from-first_free bind zero port zero fits used free = ap bind (omega arith) ∙ free
bind_from-first_free bind zero port (suc k) fits used free = absurd (omega arith)
bind_from-first_free bind (suc left) port zero fits used free =
    let here : bind port ≡ err_ok = ap bind (omega arith) ∙ free in rw (here, bind_from) refl
bind_from-first_free bind (suc left) port (suc k) fits used free =
    let here : bind port ≡ err_use = ap bind (omega arith) ∙ used 0 (omega arith) in
    rw (here, bind_from)
      (bind_from-first_free bind left (port + 1) k (omega arith)
        (λ i less. ap bind (omega arith) ∙ used (suc i) (omega arith))
        (ap bind (omega arith) ∙ free))

-- The system lets `ota_tftp_download` begin, with `k` of the ports in use.
pub record IsReady (s : System) (port k : ℕ) (addr : ℕ) : Type 0 where
  pub inits : ota_tftp_init s.partitions ≡ err_ok
  pub socket : s.has_socket ≡ true
  pub few : k ≤ 10
  pub used : (i : ℕ) → i < k → s.bind (port + i) ≡ err_use
  pub free : s.bind (port + k) ≡ err_ok
  pub known : s.host ≡ (err_ok, addr)

abbrev prelude : ℕ → ℕ → List ℕ → List Effect
prelude wait addr filename =
    set_recvtimeout wait ∷ net (connect addr) ∷ net (send (rrq_packet filename)) ∷ []

download-started :
    (w : World) (s : System) (wait port k addr : ℕ) (filename : List ℕ) (rs : List Recv)
    → IsHealthy w
    → IsReady s port k addr
    → ota_tftp_download w s wait port filename rs
      ≡ ending (prelude wait addr filename) (receive_data w (some addr) rs)
unfolding ota_tftp_download resolved requested
download-started w s wait port k addr filename rs healthy r =
    let bound : bind_from s.bind 10 port ≡ err_ok =
      bind_from-first_free s.bind 10 port k r.few r.used r.free in
    rw (r.inits, r.socket, bound, r.known, healthy.sends (rrq_packet filename)) refl

-- A whole download: where the partitions are there, one of the eleven ports from `port` on is free
-- and the server's name is known, an honest transfer of a file (as in `receive_data-completes`)
-- makes `ota_tftp_download` return ERR_OK and give its socket back, with exactly the file's bytes
-- written.
pub ota_tftp_download-completes :
    (w : World) (s : System) (wait port k addr : ℕ) (filename : List ℕ) {rest rs : List Recv}
    {file : List ℕ}
    → IsHealthy w
    → IsReady s port k addr
    → Transfer rest 1 10 file rs
    → (effects : List Effect) × (ota_tftp_download w s wait port filename rs
        ≡ download_returned err_ok (effects ++ netconn_delete ∷ []))
      × (flashed (effects ++ netconn_delete ∷ []) ≡ file)
ota_tftp_download-completes w s wait port k addr filename {rest} {rs} {file} healthy r t =
    let (acts, e, wr) = receive_data-completes w (some addr) healthy t in
    (
      prelude wait addr filename ++ map net acts,
      download-started w s wait port k addr filename rs healthy r
          ∙ ap (ending (prelude wait addr filename)) e,
      flashed-net acts (netconn_delete ∷ []) refl ∙ wr,
    )
