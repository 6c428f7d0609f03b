-- ===== src/Tftp/Limits.antt =====
-- `tftp_receive_data` with any peer, network and flash: the count that it returns.
use native.Mathlib.Nat.{add-zero}
use blackmagic_espidf.Base.{
  length-drop, ℕ, ◌+◌, ◌-◌, ◌≤◌, ◌≡◌, refl, ◌∙◌, ap, subst, Bool, true, false, Option, none, some,
  List, [], ◌∷◌, ◌++◌, ltb, ◌==◌, if◌then◌else◌, drop, Bool-cases, inl, inr, length, length-append,
  arith,
}
use blackmagic_espidf.Tftp.Packet.{
  ErrT, err_ok, err_timeout, err_val, err_if, err_use, err, Netbuf, bytes, netbuf_len, ack_packet,
  read_u16_n, op_data,
}
use blackmagic_espidf.Tftp.Receive.{
  Recv, datagram, timeout, failed, Action, send, netbuf_delete, Outcome, returned, pending,
  undefined, World, State, retransmits, continue, return, overrun, round, receive_loop,
  receive_data, Next, write_chunks, acked, after, finish_block, if_written, accept_chunks,
  accept_block, on_datagram, on_timeout, on_failure, connections, dispatch,
}
use blackmagic_espidf.Tftp.Rounds.{written, written-append}

-- A count that is claimed by the code for success, and by no other.
abbrev Claimed : ErrT → ℕ → ℕ → Type 0
Claimed err_ok m n = m ≡ n
Claimed err_timeout m n = Unit
Claimed err_val m n = Unit
Claimed err_if m n = Unit
Claimed err_use m n = Unit
Claimed (err k) m n = Unit

Claimed-of_eq : (e : ErrT) {m n : ℕ} → m ≡ n → Claimed e m n
Claimed-of_eq err_ok h = h
Claimed-of_eq err_timeout h = tt
Claimed-of_eq err_val h = tt
Claimed-of_eq err_if h = tt
Claimed-of_eq err_use h = tt
Claimed-of_eq (err k) h = tt

-- `received_len` grows by what is written, as long as the function does not report an error.
abbrev Counts : ℕ → Next → Type 0
Counts n (continue s acts) = s.received_len ≡ n + length (written acts)
Counts n (return e m acts) = Claimed e m (n + length (written acts))
Counts n (overrun acts) = Unit

length-written-append :
    (n k : ℕ) (xs ys : List Action)
    → length (written xs) ≡ k
    → n + k + length (written ys) ≡ n + length (written (xs ++ ys))
length-written-append n k xs ys h =
    omega (arith, h, ap length (written-append xs ys), length-append {0} (written xs) (written ys))

Counts-after :
    (n k : ℕ) (acts : List Action) (x : Next)
    → Counts (n + k) x
    → length (written acts) ≡ k
    → Counts n (after acts x)
Counts-after n k acts (continue s acts') h e = h ∙ length-written-append n k acts acts' e
Counts-after n k acts (return e' m acts') h e =
    subst (Claimed e' m) (length-written-append n k acts acts' e) h
Counts-after n k acts (overrun acts') h e = tt

acked-Counts :
    (w : World) (s : State) (len : ℕ) (e : ErrT) → Counts s.received_len (acked w s len e)
unfolding acked
acked-Counts w s len err_ok = ground arith
acked-Counts w s len e = tt

write_chunks-all :
    (w : World) (n : ℕ) (chunks : List (List ℕ))
    → (write_chunks w n chunks).1 ≡ true
    → written (write_chunks w n chunks).0 ≡ bytes chunks
unfolding write_chunks
write_chunks-all w n [] e = refl
write_chunks-all w n (chunk ∷ chunks) e =
    ground (arith, write_chunks-all w (n + length chunk) chunks)

finish_block-Counts :
    (w : World) (s : State) (len : ℕ) → Counts (s.received_len + (len - 4)) (finish_block w s len)
finish_block-Counts w s len =
    Counts-after (s.received_len + (len - 4)) 0 (netbuf_delete ∷ send (ack_packet s.block) ∷ [])
      (acked w s' len (w.send_result (ack_packet s.block)))
      (rw add-zero (acked-Counts w s' len (w.send_result (ack_packet s.block)))) refl
  where
    s' : State
    s' = record s { received_len = s.received_len + (len - 4) }

length-payload :
    (seg : List ℕ) (segs : Netbuf)
    → 4 ≤ length seg
    → length (bytes (drop 4 seg ∷ segs)) ≡ netbuf_len (seg ∷ segs) - 4
length-payload seg segs h = omega (
  arith,
  length-append {0} (drop 4 seg) (bytes segs),
  length-append {0} seg (bytes segs),
  length-drop {0} 4 seg,
)

if_written-Counts :
    (w : World) (s : State) (len : ℕ) (r : List Action × Bool)
    → (r.1 ≡ true → length (written r.0) ≡ len - 4)
    → Counts s.received_len
        (if_written s r (finish_block w (record s { retries = retransmits }) len))
if_written-Counts w s len (acts, true) h =
    Counts-after s.received_len (len - 4) acts
      (finish_block w (record s { retries = retransmits }) len)
      (finish_block-Counts w (record s { retries = retransmits }) len) (h refl)
if_written-Counts w s len (acts, false) h = tt

accept_block-Counts :
    (w : World) (s : State) (b : Netbuf) → Counts s.received_len (accept_block w s b)
unfolding accept_chunks
accept_block-Counts w s [] = tt
accept_block-Counts w s (seg ∷ segs) = elim (Bool-cases (ltb (length seg) 4)) [
  | inl short ↦ rw short tt
  | inr whole ↦
      let chunks : List (List ℕ) = drop 4 seg ∷ segs in
      rw whole (
        if_written-Counts w s (netbuf_len (seg ∷ segs)) (write_chunks w s.received_len chunks) (λ e.
          ap length (write_chunks-all w s.received_len chunks e)
          ∙ length-payload seg segs (ground arith)))
]

Counts-if :
    (n : ℕ) (b : Bool) (x y : Next) → Counts n x → Counts n y → Counts n (if b then x else y)
Counts-if n true x y h k = h
Counts-if n false x y h k = k

on_datagram-Counts :
    (w : World) (s : State) (b : Netbuf) → Counts s.received_len (on_datagram w s b)
unfolding on_datagram
on_datagram-Counts w s b =
    Counts-if n (read_u16_n w.junk b 0 == op_data) _ _
      (Counts-if n (read_u16_n w.junk b 2 == s.block) _ _ (accept_block-Counts w s b)
        (Counts-if n (read_u16_n w.junk b 2 == s.block - 1) _ _ (omega arith) tt))
      tt
  where
    n : ℕ
    n = s.received_len

dispatch-Counts : (w : World) (s : State) (r : Recv) → Counts s.received_len (dispatch w s r)
unfolding dispatch on_timeout on_failure
dispatch-Counts w s (datagram from b) = on_datagram-Counts w s b
dispatch-Counts w s timeout = ground arith
dispatch-Counts w s (failed e) = Claimed-of_eq e (omega arith)

connections-written : (p : Option ℕ) (r : Recv) → written (connections p r).1 ≡ []
unfolding connections
connections-written none r = refl
connections-written (some peer) (datagram from b) = refl
connections-written (some peer) timeout = refl
connections-written (some peer) (failed e) = refl

round-Counts : (w : World) (s : State) (r : Recv) → Counts s.received_len (round w s r)
unfolding round
round-Counts w s r =
    let p : Option ℕ = (connections s.peer r).0 in
    Counts-after s.received_len 0 (connections s.peer r).1 (dispatch w (record s { peer = p }) r)
      (rw add-zero (dispatch-Counts w (record s { peer = p }) r))
      (ap length (connections-written s.peer r))

abbrev RunCounts : ℕ → List Action × Outcome → Type 0
RunCounts n (acts, returned e m rest) = Claimed e m (n + length (written acts))
RunCounts n (acts, pending) = Unit
RunCounts n (acts, undefined) = Unit

RunCounts-after :
    (n k : ℕ) (acts : List Action) (x : List Action × Outcome)
    → RunCounts k x
    → k ≡ n + length (written acts)
    → RunCounts n (acts ++ x.0, x.1)
RunCounts-after n k acts (acts', returned e m rest) h q =
    subst (Claimed e m)
      (ap (λ j. j + length (written acts')) q
        ∙ length-written-append n (length (written acts)) acts acts' refl)
      h
RunCounts-after n k acts (acts', pending) h q = tt
RunCounts-after n k acts (acts', undefined) h q = tt

loop-Counts :
    (w : World) (rs : List Recv) (s : State) → RunCounts s.received_len (receive_loop w s rs)
unfolding receive_loop
loop-Counts w [] s = tt
loop-Counts w (r ∷ rs) s = by_round (round w s r) (round-Counts w s r) (λ s'. loop-Counts w rs s')
  where
    by_round :
        (x : Next)
        → Counts s.received_len x
        → ((s' : State) → RunCounts s'.received_len (receive_loop w s' rs))
        → RunCounts s.received_len (elim x [
          | continue s' acts' ↦ (acts' ++ (receive_loop w s' rs).0, (receive_loop w s' rs).1)
          | return e m acts' ↦ (acts', returned e m rs)
          | overrun acts' ↦ (acts', undefined)
        ])
    by_round (continue s' acts') c ih =
        RunCounts-after s.received_len s'.received_len acts' (receive_loop w s' rs) (ih s') c
    by_round (return e m acts') c ih = c
    by_round (overrun acts') c ih = tt

-- With any peer, network and flash: if `tftp_receive_data` returns ERR_OK, then the length that it
-- reports is the number of bytes that it has handed to `esp_ota_write`.
pub receive_data-counts :
    (w : World) (peer : Option ℕ) (rs rest : List Recv) (acts : List Action) (n : ℕ)
    → receive_data w peer rs ≡ (acts, returned err_ok n rest)
    → n ≡ length (written acts)
unfolding receive_data
receive_data-counts w peer rs rest acts n e =
    subst (RunCounts 0) e (
      loop-Counts w rs (record { received_len = 0; block = 1; retries = retransmits; peer = peer }))
    ∙ omega arith
