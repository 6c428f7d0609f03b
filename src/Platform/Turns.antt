-- ===== src/Platform/Turns.antt =====
-- The rounds of the serial bridge, main/platform.c, count what they do.
use blackmagic_espidf.Base.{
  ℕ, ◌≡◌, refl, ◌⊎◌, inl, inr, Bool, true, false, Option, none, some, List, [], ◌∷◌, length, ltb,
  if◌then◌else◌, arith,
}
use blackmagic_espidf.Base.Int.{ℤ, pos, negsuc}
use blackmagic_espidf.Platform.Serial.{
  Bridge, accepted, recv, send, close, sendto, uart_read_bytes, http_term_broadcast_data, Ready,
  UartReport, UartEvent, uart_fifo_ovf, uart_frame_err, uart_buffer_full, other, add, to_uart,
  on_accept, on_udp, on_received, on_tcp, before, chain, net_round, count_event, to_tcp, to_udp,
  on_bytes, on_read, uart_round,
}
use blackmagic_espidf.Platform.Rounds.{Turn, net, uart, turns}
use blackmagic_espidf.Platform.Counters.{
  written, broadcast, InRange, Counted, IsCounted, to_uart-IsCounted, silent, chain-Counted,
  if-Counted,
}

on_accept-IsCounted : (a : Option (Option ℕ)) → IsCounted (on_accept a)
unfolding on_accept written broadcast
on_accept-IsCounted none b r = silent b b.tcp_client_sock b.udp_peer_addr [] r refl refl
on_accept-IsCounted (some none) b r = silent b none b.udp_peer_addr [] r refl refl
on_accept-IsCounted (some (some sock)) b r =
    silent b (some sock) b.udp_peer_addr (accepted sock ∷ []) r refl refl

on_udp-IsCounted : (a : Option (Option (ℕ × List ℕ))) → IsCounted (on_udp a)
unfolding on_udp written broadcast
on_udp-IsCounted none b r = silent b b.tcp_client_sock b.udp_peer_addr [] r refl refl
on_udp-IsCounted (some none) b r = silent b b.tcp_client_sock b.udp_peer_addr [] r refl refl
on_udp-IsCounted (some (some (peer, bytes))) b r =
    let b' : Bridge = record b { udp_peer_addr = some peer } in
    let known = silent b b.tcp_client_sock (some peer) [] r refl refl in
    if-Counted (to_uart bytes b') (b', []) (ltb 0 (length bytes))
      (chain-Counted (b', []) (to_uart bytes) known (to_uart-IsCounted bytes)) known

on_received-IsCounted : (sock : ℕ) (a : Option (List ℕ)) → IsCounted (on_received sock a)
unfolding on_received written broadcast
on_received-IsCounted sock none b r = silent b none b.udp_peer_addr (close sock ∷ []) r refl refl
on_received-IsCounted sock (some bytes) b r = to_uart-IsCounted bytes b r

on_tcp-IsCounted : (ready : Ready) → IsCounted (on_tcp ready)
unfolding on_tcp written broadcast
on_tcp-IsCounted ready b r = by b.tcp_client_sock
  where
    same : Counted b (b, [])
    same = silent b b.tcp_client_sock b.udp_peer_addr [] r refl refl

    by :
        (p : Option ℕ)
        → Counted b (elim p [
          | none ↦ (b, [])
          | some sock ↦
              if ready.is_set sock
              then before (recv sock ∷ []) (on_received sock (ready.recv_bytes sock) b)
              else (b, [])
        ])
    by none = same
    by (some sock) =
        if-Counted _ _ (ready.is_set sock)
          (chain-Counted (b, recv sock ∷ []) (on_received sock (ready.recv_bytes sock))
            (silent b b.tcp_client_sock b.udp_peer_addr (recv sock ∷ []) r refl refl)
            (on_received-IsCounted sock (ready.recv_bytes sock)))
          same

net_round-IsCounted : (ready : Ready) → IsCounted (net_round ready)
unfolding net_round
net_round-IsCounted ready b r =
    chain-Counted (chain (on_accept ready.accept b) (on_udp ready.recvfrom)) (on_tcp ready)
      (chain-Counted (on_accept ready.accept b) (on_udp ready.recvfrom)
        (on_accept-IsCounted ready.accept b r) (on_udp-IsCounted ready.recvfrom))
      (on_tcp-IsCounted ready)

count_event-IsCounted : (event : UartEvent) → IsCounted (λ b. (count_event event b, []))
unfolding count_event written broadcast
count_event-IsCounted uart_fifo_ovf b r = record {
  range = record {
    tx = r.tx;
    rx = r.rx;
    overruns = omega arith;
    errors = r.errors;
    full = r.full;
    position = r.position;
  };
  tx = omega (arith, r.tx);
  rx = omega (arith, r.rx);
}
count_event-IsCounted uart_frame_err b r = record {
  range = record {
    tx = r.tx;
    rx = r.rx;
    overruns = r.overruns;
    errors = omega arith;
    full = r.full;
    position = r.position;
  };
  tx = omega (arith, r.tx);
  rx = omega (arith, r.rx);
}
count_event-IsCounted uart_buffer_full b r = record {
  range = record {
    tx = r.tx;
    rx = r.rx;
    overruns = r.overruns;
    errors = r.errors;
    full = omega arith;
    position = r.position;
  };
  tx = omega (arith, r.tx);
  rx = omega (arith, r.rx);
}
count_event-IsCounted other b r = silent b b.tcp_client_sock b.udp_peer_addr [] r refl refl

to_tcp-IsCounted : (bytes : List ℕ) (fails : Bool) → IsCounted (to_tcp bytes fails)
unfolding to_tcp written broadcast
to_tcp-IsCounted bytes fails b r = by b.tcp_client_sock fails
  where
    by :
        (p : Option ℕ) (k : Bool)
        → Counted b (elim p [
          | none ↦ (b, [])
          | some sock ↦
              if k
              then (record b { tcp_client_sock = none }, send sock bytes ∷ close sock ∷ [])
              else (b, send sock bytes ∷ [])
        ])
    by none k = silent b b.tcp_client_sock b.udp_peer_addr [] r refl refl
    by (some sock) true =
        silent b none b.udp_peer_addr (send sock bytes ∷ close sock ∷ []) r refl refl
    by (some sock) false =
        silent b b.tcp_client_sock b.udp_peer_addr (send sock bytes ∷ []) r refl refl

to_udp-IsCounted : (bytes : List ℕ) (fails : Bool) → IsCounted (to_udp bytes fails)
unfolding to_udp written broadcast
to_udp-IsCounted bytes fails b r = by b.udp_peer_addr fails
  where
    by :
        (p : Option ℕ) (k : Bool)
        → Counted b (elim p [
          | none ↦ (b, [])
          | some peer ↦ (if k then record b { udp_peer_addr = none } else b, sendto peer bytes ∷ [])
        ])
    by none k = silent b b.tcp_client_sock b.udp_peer_addr [] r refl refl
    by (some peer) true = silent b b.tcp_client_sock none (sendto peer bytes ∷ []) r refl refl
    by (some peer) false =
        silent b b.tcp_client_sock b.udp_peer_addr (sendto peer bytes ∷ []) r refl refl

-- `bufpos` is set, to one of its two values.
position-Counted :
    (b : Bridge) (n : ℤ)
    → InRange b
    → (n ≡ pos 0) ⊎ (n ≡ negsuc 0)
    → Counted b (record b { bufpos = n }, [])
unfolding written broadcast
position-Counted b n r h = record {
  range = record {
    tx = r.tx;
    rx = r.rx;
    overruns = r.overruns;
    errors = r.errors;
    full = r.full;
    position = h;
  };
  tx = omega (arith, r.tx);
  rx = omega (arith, r.rx);
}

received-Counted :
    (bytes : List ℕ) (b : Bridge)
    → InRange b
    → Counted b (
      record b { uart_rx_count = add b.uart_rx_count (length bytes) },
      http_term_broadcast_data bytes ∷ [],
    )
unfolding written broadcast
received-Counted bytes b r = record {
  range = record {
    tx = r.tx;
    rx = omega arith;
    overruns = r.overruns;
    errors = r.errors;
    full = r.full;
    position = r.position;
  };
  tx = omega (arith, r.tx);
  rx = omega arith;
}

on_bytes-IsCounted : (report : UartReport) (bytes : List ℕ) → IsCounted (on_bytes report bytes)
unfolding on_bytes
on_bytes-IsCounted report bytes b r =
    if-Counted _ _ (ltb 0 (length bytes))
      (chain-Counted
        (
          record b { uart_rx_count = add b.uart_rx_count (length bytes) },
          http_term_broadcast_data bytes ∷ [],
        )
        (λ b'.
          chain (chain (to_tcp bytes report.send_fails b') (to_udp bytes report.sendto_fails))
            (λ b''. (record b'' { bufpos = pos 0 }, [])))
        (received-Counted bytes b r)
        (λ b' r'.
          chain-Counted
            (chain (to_tcp bytes report.send_fails b') (to_udp bytes report.sendto_fails)) _
            (chain-Counted (to_tcp bytes report.send_fails b') _
              (to_tcp-IsCounted bytes report.send_fails b' r')
              (to_udp-IsCounted bytes report.sendto_fails))
            (λ b'' r''. position-Counted b'' (pos 0) r'' (inl refl))))
      (position-Counted b (pos 0) r (inl refl))

uart_round-IsCounted : (report : UartReport) → IsCounted (uart_round report)
unfolding uart_round written broadcast
uart_round-IsCounted report b r =
    chain-Counted (b, uart_read_bytes b.bufpos ∷ [])
      (λ b'. chain (count_event report.event b', []) (on_read report report.bytes))
      (silent b b.tcp_client_sock b.udp_peer_addr (uart_read_bytes b.bufpos ∷ []) r refl refl)
      (λ b' r'.
        chain-Counted (count_event report.event b', []) (on_read report report.bytes)
          (count_event-IsCounted report.event b' r') (by report.bytes))
  where
    by : (a : Option (List ℕ)) → IsCounted (on_read report a)
    by none b' r' = position-Counted b' (negsuc 0) r' (inr refl)
    by (some bytes) b' r' = on_bytes-IsCounted report bytes b' r'

-- Whatever turns the two tasks take, from counters that are values of `uint32_t` and a `bufpos`
-- that is 0 or -1: they stay so, `uart_tx_count` grows by the bytes that are written to the port,
-- and `uart_rx_count` by those of the port that are broadcast to the terminals, both modulo 2 ^ 32.
pub turns-Counted : (ts : List Turn) (b : Bridge) → InRange b → Counted b (turns ts b)
unfolding turns written broadcast
turns-Counted [] b r = silent b b.tcp_client_sock b.udp_peer_addr [] r refl refl
turns-Counted (net ready ∷ ts) b r =
    chain-Counted (net_round ready b) (turns ts) (net_round-IsCounted ready b r) (turns-Counted ts)
turns-Counted (uart report ∷ ts) b r =
    chain-Counted (uart_round report b) (turns ts) (uart_round-IsCounted report b r)
      (turns-Counted ts)
