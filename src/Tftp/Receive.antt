-- ===== src/Tftp/Receive.antt =====
-- `tftp_receive_data` of main/ota-tftp.c. lwIP and the flash are parameters: what each
-- `netconn_recv` returns is a list, what `netconn_send` and `esp_ota_write` return are functions of
-- what they are given.
use blackmagic_espidf.Base.{
  ℕ, ◌+◌, ◌-◌, Bool, true, false, ◌&&◌, Option, none, some, List, [], ◌∷◌, ◌++◌, length, drop, ltb,
  ◌==◌, if◌then◌else◌,
}
use blackmagic_espidf.Base.Text.{codes}
use blackmagic_espidf.Tftp.Packet.{
  ErrT, err_ok, err_timeout, err_val, Netbuf, netbuf_len, read_u16_n, op_data, err_illegal,
  ack_packet, error_packet,
}

-- What `netconn_recv` returns: a datagram with its sender, or an error and no buffer.
pub data Recv : Type 0 where
  datagram : (from : ℕ) → Netbuf → Recv
  timeout : Recv
  failed : ErrT → Recv

-- The calls that have an effect outside.
pub data Action : Type 0 where
  send : List ℕ → Action
  ota_write : List ℕ → Action
  netbuf_delete : Action
  connect : (peer : ℕ) → Action
  disconnect : Action
  receive_cb : (received_len : ℕ) → Action

pub data Outcome : Type 0 where
  -- The error code, `received_len`, and what is not read.
  returned : ErrT → ℕ → List Recv → Outcome
  -- It still waits for `netconn_recv`.
  pending : Outcome
  -- The first segment of a datagram is shorter than the header that is skipped in it: a read behind
  -- its end.
  undefined : Outcome

pub record World : Type 0 where
  -- What the memory holds behind a short datagram.
  pub junk : ℕ
  pub send_result : List ℕ → ErrT
  -- Whether `esp_ota_write` succeeds, at the number of bytes written before.
  pub write_result : ℕ → List ℕ → Bool
  -- Whether a `receive_cb` was given.
  pub callback : Bool

-- The variables of the loop. `peer` is `peer_addr`, while it is not null.
pub record State : Type 0 where
  pub received_len : ℕ
  pub block : ℕ
  pub retries : ℕ
  pub peer : Option ℕ

abbrev pub retransmits : ℕ
retransmits = 10

abbrev pub data_packet_sz : ℕ
data_packet_sz = 512 + 4

abbrev header_length : ℕ
header_length = 4

pub data Next : Type 0 where
  continue : State → List Action → Next
  return : ErrT → ℕ → List Action → Next
  overrun : List Action → Next

-- The loop over the segments behind the first, and whether all of them are written.
unfoldable pub write_chunks : World → ℕ → List (List ℕ) → List Action × Bool
write_chunks w written [] = ([], true)
write_chunks w written (chunk ∷ chunks) =
    let (acts, done) = write_chunks w (written + length chunk) chunks in
    if w.write_result written chunk
    then (ota_write chunk ∷ acts, done)
    else (ota_write chunk ∷ [], false)

-- The segments without the header.
abbrev payload_chunks : Netbuf → Option (List (List ℕ))
payload_chunks [] = none
payload_chunks (seg ∷ segs) =
    if ltb (length seg) header_length then none else some (drop header_length seg ∷ segs)

-- The call of `receive_cb`.
abbrev pub progress : World → ℕ → List Action
progress w received = if w.callback then receive_cb received ∷ [] else []

-- From the result of the acknowledgement to the end of the loop's body; `len` is the datagram's.
unfoldable pub acked : World → State → ℕ → ErrT → Next
acked w s len err_ok =
    if ltb len data_packet_sz
    then return err_ok s.received_len (progress w s.received_len)
    else continue (record s { block = s.block + 1 }) (progress w s.received_len)
acked w s len e = return e s.received_len []

abbrev pub after : List Action → Next → Next
after acts (continue s acts') = continue s (acts ++ acts')
after acts (return e n acts') = return e n (acts ++ acts')
after acts (overrun acts') = overrun (acts ++ acts')

-- The rest of the loop's body, when the block is written.
abbrev pub finish_block : World → State → ℕ → Next
finish_block w s len =
    let ack : List ℕ = ack_packet s.block in
    after (netbuf_delete ∷ send ack ∷ []) (
      acked w (record s { received_len = s.received_len + (len - header_length) }) len
        (w.send_result ack))

abbrev pub if_written : State → List Action × Bool → Next → Next
if_written s (acts, true) next = after acts next
if_written s (acts, false) next = return err_val s.received_len acts

-- The datagram carries the expected block; `len` is its length.
unfoldable pub accept_chunks : World → State → ℕ → Option (List (List ℕ)) → Next
accept_chunks w s len none = overrun []
accept_chunks w s len (some chunks) =
    if_written s (write_chunks w s.received_len chunks)
      (finish_block w (record s { retries = retransmits }) len)

abbrev pub accept_block : World → State → Netbuf → Next
accept_block w s b = accept_chunks w s (netbuf_len b) (payload_chunks b)

-- `tftp_send_error`, whose result nobody reads.
abbrev pub send_error : List ℕ → Action
send_error msg = send (error_packet err_illegal msg)

unfoldable pub on_datagram : World → State → Netbuf → Next
on_datagram w s b =
    if read_u16_n w.junk b 0 == op_data
    then (let client_block : ℕ = read_u16_n w.junk b 2 in
        if client_block == s.block
        then accept_block w s b
        else (if client_block == s.block - 1
            then continue s (netbuf_delete ∷ send (ack_packet (s.block - 1)) ∷ [])
            else return err_val s.received_len
                (netbuf_delete ∷ send_error (codes "Block# out of order") ∷ [])))
    else return err_val s.received_len (send_error (codes "Unknown opcode") ∷ netbuf_delete ∷ [])

unfoldable pub on_timeout : State → Next
on_timeout s =
    if ltb 0 s.retries && ltb 1 s.block
    then continue (record s { retries = s.retries - 1 }) (send (ack_packet (s.block - 1)) ∷ [])
    else return err_timeout s.received_len (send_error (codes "Timeout") ∷ [])

unfoldable pub on_failure : ErrT → State → Next
on_failure e s = return e s.received_len (send_error (codes "Failed to receive packet") ∷ [])

-- A client that has not heard from the server yet reconnects round each `netconn_recv`.
unfoldable pub connections : Option ℕ → Recv → Option ℕ × List Action
connections none r = (none, [])
connections (some peer) (datagram from b) = (none, disconnect ∷ connect from ∷ [])
connections (some peer) timeout = (some peer, disconnect ∷ connect peer ∷ [])
connections (some peer) (failed e) = (some peer, disconnect ∷ connect peer ∷ [])

unfoldable pub dispatch : World → State → Recv → Next
dispatch w s (datagram from b) = on_datagram w s b
dispatch w s timeout = on_timeout s
dispatch w s (failed e) = on_failure e s

-- One round of the loop.
unfoldable pub round : World → State → Recv → Next
round w s r =
    let (peer', acts) = connections s.peer r in
    after acts (dispatch w (record s { peer = peer' }) r)

unfoldable pub receive_loop : World → State → List Recv → List Action × Outcome
receive_loop w s [] = ([], pending)
receive_loop w s (r ∷ rs) = elim (round w s r) [
  | continue s' acts ↦ let (acts', o) = receive_loop w s' rs in (acts ++ acts', o)
  | return e n acts ↦ (acts, returned e n rs)
  | overrun acts ↦ (acts, undefined)
]

unfoldable pub receive_data : World → Option ℕ → List Recv → List Action × Outcome
receive_data w peer rs =
    receive_loop w (record { received_len = 0; block = 1; retries = retransmits; peer = peer }) rs
