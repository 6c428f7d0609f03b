-- ===== src/Tftp/Silence.antt =====
-- `tftp_receive_data` with a silent peer.
use blackmagic_espidf.Base.{
  ℕ, zero, suc, ◌-◌, ◌≤◌, ◌<◌, ◌≡◌, ◌⊎◌, inl, inr, refl, ◌∙◌, List, [], ◌∷◌, ◌++◌, ltb, ◌&&◌,
  replicate, arith, false, Bool-cases, if◌then◌else◌,
}
use blackmagic_espidf.Base.Text.{codes}
use blackmagic_espidf.Tftp.Packet.{err_timeout}
use blackmagic_espidf.Tftp.Receive.{
  Recv, timeout, Action, returned, World, State, return, send_error, connections, dispatch,
  on_timeout, round, receive_loop,
}
use blackmagic_espidf.Tftp.Rounds.{written, written-append}
use blackmagic_espidf.Tftp.Datagrams.{round-late, reconnected}
use blackmagic_espidf.Tftp.Transfer.{loop-continue, loop-return}

no_more : (a b : ℕ) → (a ≡ 0) ⊎ (b ≤ 1) → (ltb 0 a && ltb 1 b) ≡ false
no_more a b h = ground arith

-- A timeout with no retransmission left, or in front of the first block.
round-gives_up :
    (w : World) (s : State)
    → (s.retries ≡ 0) ⊎ (s.block ≤ 1)
    → (acts : List Action) × (round w s timeout ≡ return err_timeout s.received_len acts)
      × (written acts ≡ [])
unfolding round dispatch on_timeout
round-gives_up w s h =
    let setup : List Action = (connections s.peer timeout).1 in
    let report : List Action = send_error (codes "Timeout") ∷ [] in
    (
      setup ++ report,
      rw (no_more s.retries s.block h),
      written-append setup report ∙ rw (reconnected s.peer).1,
    )

Abandoned : World → State → List Recv → List Recv → Type 0
Abandoned w s rs rest =
    (acts : List Action) × (receive_loop w s rs ≡ (acts, returned err_timeout s.received_len rest))
    × (written acts ≡ [])

silence-ends :
    (w : World) (n : ℕ) (s : State) (rest : List Recv)
    → s.retries ≡ n
    → 1 < s.block
    → Abandoned w s (replicate (suc n) timeout ++ rest) rest
unfolding Abandoned
silence-ends w zero s rest left started =
    let (acts, e, wr) = round-gives_up w s (inl left) in
    (acts, loop-return w s timeout rest acts err_timeout s.received_len e, wr)
silence-ends w (suc n) s rest left started =
    let s' : State = record s { retries = s.retries - 1 } in
    let (acts, e, wr) = round-late w s (omega arith) started in
    let (acts', f, wr') = silence-ends w n s' rest (omega arith) started in
    (
      acts ++ acts',
      loop-continue w s s' timeout (replicate (suc n) timeout ++ rest) acts acts' _ e f,
      written-append acts acts' ∙ rw (wr, wr'),
    )

-- How many timeouts in a row end a transfer: behind the first block one more than there are
-- retransmissions left, in front of it one.
abbrev patience : State → ℕ
patience s = if ltb 1 s.block then suc s.retries else 1

-- Silence ends a transfer: after `patience` timeouts in a row the function returns ERR_TIMEOUT.
-- Nothing is written meanwhile, and the count of bytes stays.
pub receive_loop-gives_up :
    (w : World) (s : State) (rest : List Recv)
    → (acts : List Action) × (receive_loop w s (replicate (patience s) timeout ++ rest)
        ≡ (acts, returned err_timeout s.received_len rest))
      × (written acts ≡ [])
unfolding Abandoned
receive_loop-gives_up w s rest = elim (Bool-cases (ltb 1 s.block)) [
  | inl started ↦ rw started (silence-ends w s.retries s rest refl (ground arith))
  | inr first ↦
      let (acts, e, wr) = round-gives_up w s (inr (ground arith)) in
      rw first (acts, loop-return w s timeout rest acts err_timeout s.received_len e, wr)
]
