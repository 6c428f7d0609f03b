-- ===== src/Tftp/Server.antt =====
-- `tftp_task` and `ota_tftp_download` of main/ota-tftp.c: the rounds of the server, and the client.
use blackmagic_espidf.Base.{
  ℕ, zero, suc, ◌+◌, ◌%◌, ◌^◌, Bool, true, false, not, ◌||◌, Option, none, some, List, [], ◌∷◌,
  ◌++◌, map, ltb, ◌==◌, if◌then◌else◌,
}
use blackmagic_espidf.Base.Text.{codes, str_eq}
use blackmagic_espidf.Tftp.Packet.{
  ErrT, err_ok, err_timeout, err_val, err_if, err_use, err, Netbuf, netbuf_len, read_u16_n, op_wrq,
  err_file_not_found, err_illegal, firmware_file, octet_mode, ack_packet, error_packet, rrq_packet,
}
use blackmagic_espidf.Tftp.Field.{get_field}
use blackmagic_espidf.Tftp.Receive.{
  Recv, datagram, timeout, failed, Action, send, netbuf_delete, connect, disconnect, Outcome,
  returned, pending, undefined, World, receive_data,
}

pub data Effect : Type 0 where
  net : Action → Effect
  set_recvtimeout : ℕ → Effect
  -- `ota_tftp_init` of the server: nobody reads its result.
  ota_init : Effect
  set_boot_partition : Effect
  restart : Effect
  netconn_delete : Effect

-- Where a round of `tftp_task` ends.
pub data After : Type 0 where
  listening : List Recv → After
  restarted : After
  -- As for `tftp_receive_data`.
  waiting : After
  overrun : After

-- `field && !strcmp(field, text)`.
unfoldable pub is_text : Option (List ℕ) → List ℕ → Bool
is_text none text = false
is_text (some field) text = str_eq field text

abbrev pub is_ok : ErrT → Bool
is_ok err_ok = true
is_ok err_timeout = false
is_ok err_val = false
is_ok err_if = false
is_ok err_use = false
is_ok (err n) = false

-- From the return of `tftp_receive_data`. `boots` says whether `esp_ota_set_boot_partition`
-- succeeds.
unfoldable pub finish : Bool → List Action × Outcome → List Effect × After
finish boots (acts, returned e n rest) =
    let done : List Effect = map net acts ++ net disconnect ∷ [] in
    if is_ok e
    then (if boots
        then (done ++ set_boot_partition ∷ restart ∷ [], restarted)
        else (done ++ set_boot_partition ∷ [], listening rest))
    else (done, listening rest)
finish boots (acts, pending) = (map net acts, waiting)
finish boots (acts, undefined) = (map net acts, overrun)

abbrev pub then_effects : List Effect → List Effect × After → List Effect × After
then_effects es (es', a) = (es ++ es', a)

-- The request is accepted: the connection to its sender, and the transfer.
unfoldable pub start_transfer : World → Bool → (from : ℕ) → List Recv → List Effect × After
start_transfer w boots from rs =
    let begin : List Effect =
      net (connect from) ∷ net netbuf_delete ∷ net (send (ack_packet 0)) ∷ [] in
    (if is_ok (w.send_result (ack_packet 0))
      then then_effects (begin ++ ota_init ∷ set_recvtimeout 10000 ∷ [])
          (finish boots (receive_data w none rs))
      else (begin ++ net disconnect ∷ [], listening rs))

-- The answer to a request that is refused for its file or its mode.
abbrev refuse : ℕ → List ℕ → List Effect
refuse code msg = net (send (error_packet code msg)) ∷ net netbuf_delete ∷ []

unfoldable pub on_request : World → Bool → (from : ℕ) → Netbuf → List Recv → List Effect × After
on_request w boots from b rs =
    if ltb (netbuf_len b % 2 ^ 16) 6
    then (net netbuf_delete ∷ [], listening rs)
    else if not (read_u16_n w.junk b 0 == op_wrq)
    then (net netbuf_delete ∷ [], listening rs)
    else if not (is_text (get_field 0 b) firmware_file)
    then (refuse err_file_not_found (codes "File must be firmware.bin"), listening rs)
    else if not (is_text (get_field 1 b) octet_mode)
    then (refuse err_illegal (codes "Mode must be octet/binary"), listening rs)
    else start_transfer w boots from rs

-- One round of the loop of `tftp_task`.
unfoldable pub serve : World → Bool → List Recv → List Effect × After
serve w boots [] = (set_recvtimeout 0 ∷ [], waiting)
serve w boots (datagram from b ∷ rs) =
    then_effects (set_recvtimeout 0 ∷ []) (on_request w boots from b rs)
serve w boots (timeout ∷ rs) = (set_recvtimeout 0 ∷ [], listening rs)
serve w boots (failed e ∷ rs) = (set_recvtimeout 0 ∷ [], listening rs)

-- `netconn_bind` from `port` on, up to ten ports further: `bind` gives what it returns for a port.
-- The first argument is how many ports are left.
unfoldable pub bind_from : (ℕ → ErrT) → ℕ → ℕ → ErrT
bind_from bind zero port = bind port
bind_from bind (suc left) port =
    let rest = bind_from bind left (port + 1) in elim (bind port) [ err_use ↦ rest | e ↦ e ]

-- The partition table and the flash: the boot, the running and the next update partition, and
-- whether `esp_ota_begin` succeeds.
pub record Partitions : Type 0 where
  pub configured_part : Option ℕ
  pub running_part : Option ℕ
  pub update_part : Option ℕ
  pub begins : Bool

abbrev is_null : Option ℕ → Bool
is_null none = true
is_null (some part) = false

unfoldable pub ota_tftp_init : Partitions → ErrT
ota_tftp_init p =
    if is_null p.configured_part || is_null p.running_part
    then err_val
    else if is_null p.update_part
    then err_val
    else if p.begins
    then err_ok
    else err_val

-- What `ota_tftp_download` asks of the system: the partitions, the socket, the ports and the
-- server's address.
pub record System : Type 0 where
  pub partitions : Partitions
  pub has_socket : Bool
  pub bind : ℕ → ErrT
  pub host : ErrT × ℕ

pub data Download : Type 0 where
  download_returned : ErrT → List Effect → Download
  download_pending : List Effect → Download
  download_undefined : List Effect → Download

abbrev pub ending : List Effect → List Action × Outcome → Download
ending before (acts, returned e n rest) =
    download_returned e (before ++ map net acts ++ netconn_delete ∷ [])
ending before (acts, pending) = download_pending (before ++ map net acts)
ending before (acts, undefined) = download_undefined (before ++ map net acts)

-- From the result of `tftp_send_rrq`.
unfoldable pub requested : World → (addr : ℕ) → List Effect → List Recv → ErrT → Download
requested w addr before rs e =
    if is_ok e
    then ending before (receive_data w (some addr) rs)
    else download_returned e (before ++ netconn_delete ∷ [])

-- From the result of `netconn_gethostbyname`.
unfoldable pub resolved : World → List ℕ → List Effect → List Recv → ErrT × ℕ → Download
unfolding requested
resolved w filename before rs (e, addr) =
    if is_ok e
    then requested w addr (before ++ net (connect addr) ∷ net (send (rrq_packet filename)) ∷ []) rs
        (w.send_result (rrq_packet filename))
    else download_returned e (before ++ netconn_delete ∷ [])

-- The negative results of `ota_tftp_init` are all but ERR_OK.
unfoldable pub ota_tftp_download :
    World → System → (wait : ℕ) → (port : ℕ) → List ℕ → List Recv → Download
unfolding ota_tftp_init resolved
ota_tftp_download w s wait port filename rs =
    let e : ErrT = bind_from s.bind 10 port in
    let before : List Effect = set_recvtimeout wait ∷ [] in
    if not (is_ok (ota_tftp_init s.partitions))
    then download_returned err_val []
    else if not s.has_socket
    then download_returned err_if []
    else if is_ok e
    then resolved w filename before rs s.host
    else download_returned e (before ++ netconn_delete ∷ [])
