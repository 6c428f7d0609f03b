-- ===== src/Tftp/Datagrams.antt =====
-- Whole rounds of `tftp_receive_data` on the datagrams of an honest peer.
use blackmagic_espidf.Base.{
  ℕ, ◌+◌, ◌-◌, ◌<◌, ◌≡◌, ◌≢◌, refl, ◌∙◌, ap, false, Option, none, some, List, [], ◌∷◌, ◌++◌,
  append-nil, length, lt→ltb, ◌==◌, ==_iff, arith,
}
use blackmagic_espidf.Tftp.Packet.{err_ok, Netbuf, netbuf_len, read_u16_n, op_data, ack_packet}
use blackmagic_espidf.Tftp.Receive.{
  datagram, timeout, Action, send, netbuf_delete, World, State, retransmits, continue, return,
  finish_block, after, accept_block, on_datagram, on_timeout, connections, dispatch, round,
}
use blackmagic_espidf.Tftp.Rounds.{
  IsHealthy, IsData, written, written-append, accept_block-healthy, finish-last, finish-more,
  reports, written-reports,
}

module _ {n : ℕ} {payload seg : List ℕ} {segs : Netbuf} (d : IsData n payload seg segs)
    (junk : ℕ) where
  read-opcode : read_u16_n junk (seg ∷ segs) 0 ≡ op_data
  read-opcode = rw d.content

  read-block : read_u16_n junk (seg ∷ segs) 2 ≡ n
  read-block = rw d.content (omega (arith, d.small))

  len-payload : netbuf_len (seg ∷ segs) ≡ 4 + length payload
  len-payload = ap length d.content ∙ omega arith

neq-false : (a b : ℕ) → a ≢ b → (a == b) ≡ false
neq-false a b h = ground arith

on_datagram-next :
    (w : World) (s : State) {payload seg : List ℕ} {segs : Netbuf}
    → IsData s.block payload seg segs
    → on_datagram w s (seg ∷ segs) ≡ accept_block w s (seg ∷ segs)
unfolding on_datagram
on_datagram-next w s d =
    rw (read-opcode d w.junk, read-block d w.junk, (==_iff s.block s.block).1 refl)

-- The block before, again, is acknowledged again.
on_datagram-again :
    (w : World) (s : State) {payload seg : List ℕ} {segs : Netbuf}
    → 0 < s.block
    → IsData (s.block - 1) payload seg segs
    → on_datagram w s (seg ∷ segs)
      ≡ continue s (netbuf_delete ∷ send (ack_packet (s.block - 1)) ∷ [])
unfolding on_datagram
on_datagram-again w s started d = rw (
  read-opcode d w.junk,
  read-block d w.junk,
  neq-false (s.block - 1) s.block (omega arith),
  (==_iff (s.block - 1) (s.block - 1)).1 refl,
)

connected :
    (from : ℕ) (b : Netbuf) (p : Option ℕ)
    → ((connections p (datagram from b)).0 ≡ none)
      × (written (connections p (datagram from b)).1 ≡ [])
unfolding connections
connected from b none = (refl, refl)
connected from b (some peer) = (refl, refl)

module _ (w : World) (s : State) (from : ℕ) (seg : List ℕ) (segs : Netbuf) where
  -- The calls of a round that set up the connection.
  abbrev setup : List Action
  setup = (connections s.peer (datagram from (seg ∷ segs))).1

  abbrev here : State
  here = record s { peer = none }

  round-datagram :
      round w s (datagram from (seg ∷ segs)) ≡ after setup (on_datagram w here (seg ∷ segs))
  unfolding round dispatch
  round-datagram =
      ap (λ p. after setup (on_datagram w (record s { peer = p }) (seg ∷ segs)))
        (connected from (seg ∷ segs) s.peer).0

  module _ (healthy : IsHealthy w) {payload : List ℕ} (d : IsData s.block payload seg segs) where
    -- The writes of the block, and the rest of the round.
    round-next :
        (acts : List Action) × (round w s (datagram from (seg ∷ segs))
          ≡ after setup (
              after acts
                (finish_block w (record here { retries = retransmits }) (4 + length payload))))
        × (written acts ≡ payload)
    round-next =
        let (acts, e, wr) = accept_block-healthy w healthy here d in
        (
          acts,
          round-datagram
              ∙ ap (after setup) (
                  on_datagram-next w here d
                  ∙ e
                  ∙ ap (λ n. after acts (finish_block w (record here { retries = retransmits }) n))
                      (len-payload d w.junk)),
          wr,
        )

    written-round :
        (acts : List Action) (n : ℕ)
        → written acts ≡ payload
        → written (setup ++ (acts ++ reports w s.block n)) ≡ payload
    written-round acts n wr =
        written-append setup (acts ++ reports w s.block n)
        ∙ rw
            (
              (connected from (seg ∷ segs) s.peer).1,
              written-append acts (reports w s.block n),
              wr,
              written-reports w s.block n,
            )
            (append-nil payload)

    -- A block of less than 512 bytes ends the transfer.
    pub round-last :
        length payload < 512
        → (acts : List Action) × (round w s (datagram from (seg ∷ segs))
            ≡ return err_ok (s.received_len + length payload) acts)
          × (written acts ≡ payload)
    round-last short =
        let (acts, e, wr) = round-next in
        let n : ℕ = s.received_len + length payload in
        let count : s.received_len + (4 + length payload - 4) ≡ n = omega arith in
        (
          setup ++ (acts ++ reports w s.block n),
          e
              ∙ ap (λ x. after setup (after acts x))
                  (finish-last w healthy (record here { retries = retransmits })
                      (4 + length payload) (omega arith)
                    ∙ ap (λ k. return err_ok k (reports w s.block k)) count),
          written-round acts n wr,
        )

    -- A full block is followed by the next, with all retransmissions left.
    pub round-more :
        length payload ≡ 512
        → (acts : List Action) × (round w s (datagram from (seg ∷ segs))
            ≡ continue
                (record {
                  received_len = s.received_len + length payload;
                  block = s.block + 1;
                  retries = retransmits;
                  peer = none;
                })
                acts)
          × (written acts ≡ payload)
    round-more full =
        let (acts, e, wr) = round-next in
        let n : ℕ = s.received_len + length payload in
        let count : s.received_len + (4 + length payload - 4) ≡ n = omega arith in
        (
          setup ++ (acts ++ reports w s.block n),
          e
              ∙ ap (λ x. after setup (after acts x))
                  (finish-more w healthy (record here { retries = retransmits })
                      (4 + length payload) (omega arith)
                    ∙ ap
                        (λ k.
                          continue
                            (record here {
                              received_len = k;
                              block = s.block + 1;
                              retries = retransmits;
                            })
                            (reports w s.block k))
                        count),
          written-round acts n wr,
        )

  -- The block before, again, changes nothing but the connection.
  pub round-again :
      {payload : List ℕ}
      → 0 < s.block
      → IsData (s.block - 1) payload seg segs
      → (acts : List Action) × (round w s (datagram from (seg ∷ segs))
          ≡ continue (record s { peer = none }) acts)
        × (written acts ≡ [])
  round-again started d = (
    setup ++ netbuf_delete ∷ send (ack_packet (s.block - 1)) ∷ [],
    round-datagram ∙ ap (after setup) (on_datagram-again w here started d),
    written-append setup (netbuf_delete ∷ send (ack_packet (s.block - 1)) ∷ [])
        ∙ rw (connected from (seg ∷ segs) s.peer).1,
  )

pub reconnected :
    (p : Option ℕ) → ((connections p timeout).0 ≡ p) × (written (connections p timeout).1 ≡ [])
unfolding connections
reconnected none = (refl, refl)
reconnected (some peer) = (refl, refl)

on_timeout-late :
    (s : State)
    → 0 < s.retries
    → 1 < s.block
    → on_timeout s
      ≡ continue (record s { retries = s.retries - 1 }) (send (ack_packet (s.block - 1)) ∷ [])
unfolding on_timeout
on_timeout-late s left started = rw (lt→ltb 0 s.retries left, lt→ltb 1 s.block started)

-- A timeout behind the first block costs a retransmission, and changes nothing else.
pub round-late :
    (w : World) (s : State)
    → 0 < s.retries
    → 1 < s.block
    → (acts : List Action) × (round w s timeout
        ≡ continue (record s { retries = s.retries - 1 }) acts)
      × (written acts ≡ [])
unfolding round dispatch
round-late w s left started =
    let setup : List Action = (connections s.peer timeout).1 in
    let again : List Action = send (ack_packet (s.block - 1)) ∷ [] in
    (
      setup ++ again,
      ap (λ p. after setup (on_timeout (record s { peer = p }))) (reconnected s.peer).0
          ∙ ap (after setup) (on_timeout-late s left started),
      written-append setup again ∙ rw (reconnected s.peer).1,
    )
