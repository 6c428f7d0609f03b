-- ===== src/Tftp/Rounds.antt =====
-- One round of `tftp_receive_data` at a time: what each kind of datagram does.
use blackmagic_espidf.Base.{
  ℕ, zero, suc, ◌+◌, ◌-◌, ◌/◌, ◌%◌, ◌≤◌, ◌<◌, ◌≡◌, refl, sym, ◌∙◌, ap, true, false, List, [], ◌∷◌,
  ◌++◌, map, append_assoc, length, drop, ltb, lt→ltb, arith,
}
use blackmagic_espidf.Tftp.Packet.{err_ok, Netbuf, bytes, netbuf_len, op_data, ack_packet}
use blackmagic_espidf.Tftp.Receive.{
  Action, send, ota_write, netbuf_delete, connect, disconnect, receive_cb, World, State,
  retransmits, data_packet_sz, continue, return, write_chunks, finish_block, after, accept_chunks,
  acked, progress, accept_block,
}

-- The network and the flash take everything.
pub record IsHealthy (w : World) : Type 0 where
  pub sends : (p : List ℕ) → w.send_result p ≡ err_ok
  pub writes : (n : ℕ) (chunk : List ℕ) → w.write_result n chunk ≡ true

-- A datagram that carries `payload` as block `n`, in any segments, the header in the first.
pub record IsData (n : ℕ) (payload seg : List ℕ) (segs : Netbuf) : Type 0 where
  pub small : n < 65536
  pub header : 4 ≤ length seg
  pub content : bytes (seg ∷ segs) ≡ 0 ∷ op_data ∷ n / 256 % 256 ∷ n % 256 ∷ payload

-- The bytes that a list of actions writes to the flash.
abbrev pub written : List Action → List ℕ
written [] = []
written (ota_write chunk ∷ acts) = chunk ++ written acts
written (send p ∷ acts) = written acts
written (netbuf_delete ∷ acts) = written acts
written (connect peer ∷ acts) = written acts
written (disconnect ∷ acts) = written acts
written (receive_cb n ∷ acts) = written acts

pub written-append : (xs ys : List Action) → written (xs ++ ys) ≡ written xs ++ written ys
written-append [] ys = refl
written-append (ota_write chunk ∷ xs) ys =
    rw (written-append xs ys) (sym (append_assoc chunk (written xs) (written ys)))
written-append (send p ∷ xs) ys = written-append xs ys
written-append (netbuf_delete ∷ xs) ys = written-append xs ys
written-append (connect peer ∷ xs) ys = written-append xs ys
written-append (disconnect ∷ xs) ys = written-append xs ys
written-append (receive_cb n ∷ xs) ys = written-append xs ys

written-writes : (chunks : List (List ℕ)) → written (map ota_write chunks) ≡ bytes chunks
written-writes [] = refl
written-writes (chunk ∷ chunks) = ap (λ l. chunk ++ l) (written-writes chunks)

drop-append : (n : ℕ) (xs ys : List ℕ) → n ≤ length xs → drop n (xs ++ ys) ≡ drop n xs ++ ys
drop-append zero xs ys h = refl
drop-append (suc n) [] ys h = absurd (omega arith)
drop-append (suc n) (x ∷ xs) ys h = drop-append n xs ys (omega arith)

ltb-false : (a b : ℕ) → b ≤ a → ltb a b ≡ false
ltb-false a b h = ground arith

-- What follows the writes of a block: the datagram is deleted, the block acknowledged.
abbrev pub reports : World → ℕ → ℕ → List Action
reports w block received = netbuf_delete ∷ send (ack_packet block) ∷ progress w received

pub written-reports : (w : World) (block received : ℕ) → written (reports w block received) ≡ []
written-reports w block received = ground arith

module _ (w : World) (healthy : IsHealthy w) where
  write_chunks-healthy :
      (k : ℕ) (chunks : List (List ℕ)) → write_chunks w k chunks ≡ (map ota_write chunks, true)
  unfolding write_chunks
  write_chunks-healthy k [] = refl
  write_chunks-healthy k (chunk ∷ chunks) =
      rw (healthy.writes k chunk, write_chunks-healthy (k + length chunk) chunks)

  pub accept_block-healthy :
      (s : State) {n : ℕ} {payload seg : List ℕ} {segs : Netbuf}
      → IsData n payload seg segs
      → (acts : List Action) × (accept_block w s (seg ∷ segs)
          ≡ after acts
              (finish_block w (record s { retries = retransmits }) (netbuf_len (seg ∷ segs))))
        × (written acts ≡ payload)
  unfolding accept_chunks
  accept_block-healthy s {n} {payload} {seg} {segs} d =
      let chunks : List (List ℕ) = drop 4 seg ∷ segs in
      (
        map ota_write chunks,
        rw (ltb-false (length seg) 4 d.header, write_chunks-healthy s.received_len chunks),
        written-writes chunks
            ∙ sym (drop-append 4 seg (bytes segs) d.header)
            ∙ ap (drop 4) d.content,
      )

  -- The last round, and the others, on the block that is expected.
  pub finish-last :
      (s : State) (len : ℕ)
      → len < data_packet_sz
      → finish_block w s len
        ≡ return err_ok
            (s.received_len + (len - 4))
            (reports w s.block (s.received_len + (len - 4)))
  unfolding acked
  finish-last s len short = rw (healthy.sends (ack_packet s.block), lt→ltb len data_packet_sz short)

  pub finish-more :
      (s : State) (len : ℕ)
      → data_packet_sz ≤ len
      → finish_block w s len
        ≡ continue
            (record s { received_len = s.received_len + (len - 4); block = s.block + 1 })
            (reports w s.block (s.received_len + (len - 4)))
  unfolding acked
  finish-more s len full =
      rw (healthy.sends (ack_packet s.block), ltb-false len data_packet_sz full)
