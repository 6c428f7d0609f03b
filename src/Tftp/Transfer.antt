-- ===== src/Tftp/Transfer.antt =====
-- Transfers: whole runs of `tftp_receive_data` against an honest peer, with duplicates and timeouts.
use blackmagic_espidf.Base.{
  ℕ, ◌+◌, ◌-◌, ◌<◌, ◌≡◌, sym, ◌∙◌, ap, Option, none, List, ◌∷◌, ◌++◌, length, length-append, arith,
}
use blackmagic_espidf.Tftp.Packet.{ErrT, err_ok, Netbuf}
use blackmagic_espidf.Tftp.Receive.{
  Recv, datagram, timeout, Action, Outcome, returned, World, State, retransmits, continue, return,
  round, receive_loop, receive_data,
}
use blackmagic_espidf.Tftp.Rounds.{IsHealthy, IsData, written, written-append}
use blackmagic_espidf.Tftp.Datagrams.{round-last, round-more, round-again, round-late}

-- What a peer that sends `file`, of which blocks from `block` on are still to come, may make the
-- calls of `netconn_recv` return, while `retries` retransmissions are left; `rest` comes after.
pub data Transfer (rest : List Recv)
    : (block retries : ℕ) → (file : List ℕ) → List Recv → Type 0 where
  -- A block of less than 512 bytes is the last, be it empty.
  last :
      {block retries : ℕ} {file : List ℕ} (from : ℕ) (seg : List ℕ) (segs : Netbuf)
      → IsData block file seg segs
      → length file < 512
      → Transfer rest block retries file (datagram from (seg ∷ segs) ∷ rest)
  more :
      {block retries : ℕ} {file : List ℕ} {rs : List Recv} (from : ℕ) (seg : List ℕ) (segs : Netbuf)
      (payload file' : List ℕ)
      → file ≡ payload ++ file'
      → IsData block payload seg segs
      → length payload ≡ 512
      → Transfer rest (block + 1) retransmits file' rs
      → Transfer rest block retries file (datagram from (seg ∷ segs) ∷ rs)
  -- The block before comes again: its acknowledgement was lost, or the network doubled it.
  again :
      {block retries : ℕ} {file : List ℕ} {rs : List Recv} (from : ℕ) (seg : List ℕ) (segs : Netbuf)
      (payload : List ℕ)
      → 0 < block
      → IsData (block - 1) payload seg segs
      → Transfer rest block retries file rs
      → Transfer rest block retries file (datagram from (seg ∷ segs) ∷ rs)
  -- Nothing comes in time, behind the first block.
  late :
      {block retries : ℕ} {file : List ℕ} {rs : List Recv}
      → 0 < retries
      → 1 < block
      → Transfer rest block (retries - 1) file rs
      → Transfer rest block retries file (timeout ∷ rs)

abbrev Completed : World → State → List Recv → List ℕ → List Recv → Type 0
Completed w s rs file rest =
    (acts : List Action) × (receive_loop w s rs
      ≡ (acts, returned err_ok (s.received_len + length file) rest))
    × (written acts ≡ file)

abbrev at : ℕ → ℕ → ℕ → Option ℕ → State
at received_len block retries peer = record {
  received_len = received_len;
  block = block;
  retries = retries;
  peer = peer;
}

-- A round that goes on, in front of the others.
pub loop-continue :
    (w : World) (s s' : State) (r : Recv) (rs : List Recv) (acts acts' : List Action) (o : Outcome)
    → round w s r ≡ continue s' acts
    → receive_loop w s' rs ≡ (acts', o)
    → receive_loop w s (r ∷ rs) ≡ (acts ++ acts', o)
unfolding receive_loop
loop-continue w s s' r rs acts acts' o e f = rw (e, receive_loop) (rw f)

pub loop-return :
    (w : World) (s : State) (r : Recv) (rs : List Recv) (acts : List Action) (e : ErrT) (n : ℕ)
    → round w s r ≡ return e n acts
    → receive_loop w s (r ∷ rs) ≡ (acts, returned e n rs)
unfolding receive_loop
loop-return w s r rs acts e n h = rw (h, receive_loop)

completes_at :
    (w : World)
    → IsHealthy w
    → {rest : List Recv} {block retries : ℕ} {file : List ℕ} {rs : List Recv}
    → (received_len : ℕ) (peer : Option ℕ) → Transfer rest block retries file rs
    → Completed w (at received_len block retries peer) rs file rest
completes_at w healthy {rest} {block} {retries} received_len peer (last from seg segs d short) =
    let (acts, e, wr) =
      round-last w (at received_len block retries peer) from seg segs healthy d short in
    (acts, loop-return w _ _ rest acts err_ok _ e, wr)
completes_at w healthy {rest} {block} {retries} received_len peer
      (more {rs = rs} from seg segs payload file' whole d full t) =
    let s : State = at received_len block retries peer in
    let s' : State = at (received_len + length payload) (block + 1) retransmits none in
    let (acts, e, wr) = round-more w s from seg segs healthy d full in
    let (acts', f, wr') = completes_at w healthy (received_len + length payload) none t in
    (
      acts ++ acts',
      loop-continue w s s' _ rs acts acts' _ e f
          ∙ ap (λ k. (acts ++ acts', returned err_ok k rest))
              (omega (arith, ap length whole, length-append {0} payload file')),
      written-append acts acts' ∙ rw (wr, wr') (sym whole),
    )
completes_at w healthy {rest} {block} {retries} received_len peer
      (again {rs = rs} from seg segs payload started d t) =
    let s : State = at received_len block retries peer in
    let (acts, e, wr) = round-again w s from seg segs started d in
    let (acts', f, wr') = completes_at w healthy received_len none t in
    (
      acts ++ acts',
      loop-continue w s (at received_len block retries none) _ rs acts acts' _ e f,
      written-append acts acts' ∙ rw (wr, wr'),
    )
completes_at w healthy {rest} {block} {retries} received_len peer (late {rs = rs} left started t) =
    let s : State = at received_len block retries peer in
    let (acts, e, wr) = round-late w s left started in
    let (acts', f, wr') = completes_at w healthy received_len peer t in
    (
      acts ++ acts',
      loop-continue w s (at received_len block (retries - 1) peer) _ rs acts acts' _ e f,
      written-append acts acts' ∙ rw (wr, wr'),
    )

-- A transfer of a file whose peer is honest, with any duplicates of the block before and up to ten
-- timeouts in front of each block but the first, over a network and to a flash that take
-- everything: `tftp_receive_data` returns ERR_OK with the file's length, it has written the file's
-- bytes once and in order, and what comes after is left to read. It does so for the server (no
-- peer address) and the client.
pub receive_data-completes :
    (w : World) (peer : Option ℕ) {rest rs : List Recv} {file : List ℕ}
    → IsHealthy w
    → Transfer rest 1 10 file rs
    → (acts : List Action) × (receive_data w peer rs ≡ (acts, returned err_ok (length file) rest))
      × (written acts ≡ file)
unfolding receive_data
receive_data-completes w peer {rest} {file = file} healthy t =
    let (acts, e, wr) = completes_at w healthy 0 peer t in
    let count : 0 + length file ≡ length file = omega arith in
    (acts, e ∙ ap (λ k. (acts, returned err_ok k rest)) count, wr)
