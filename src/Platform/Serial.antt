-- ===== src/Platform/Serial.antt =====
-- The serial bridge: `net_uart_task` and `uart_rx_task` of main/platform.c, a round and an event at a
-- time.
use blackmagic_espidf.Base.{
  ℕ, ◌+◌, ◌%◌, ◌^◌, Bool, Option, none, some, List, [], ◌∷◌, ◌++◌, length, ltb, if◌then◌else◌,
}
use blackmagic_espidf.Base.Int.{ℤ, pos, negsuc}

-- The variables of both tasks; `bufpos` is the one of `uart_rx_task`. No socket and no address are 0.
pub record Bridge : Type 0 where
  pub tcp_client_sock : Option ℕ
  pub udp_peer_addr : Option ℕ
  pub uart_overrun_cnt : ℕ
  pub uart_errors : ℕ
  pub uart_queue_full_cnt : ℕ
  pub uart_rx_count : ℕ
  pub uart_tx_count : ℕ
  pub bufpos : ℤ

pub data Effect : Type 0 where
  accepted : (sock : ℕ) → Effect
  recv : (sock : ℕ) → Effect
  send : (sock : ℕ) → List ℕ → Effect
  close : (sock : ℕ) → Effect
  sendto : (peer : ℕ) → List ℕ → Effect
  uart_write_bytes : List ℕ → Effect
  uart_read_bytes : (at : ℤ) → Effect
  http_term_broadcast_data : List ℕ → Effect

-- What is ready behind `select`, and what the calls return: `accept`, with nothing where it fails;
-- `recvfrom`, with the peer and the bytes; `recv` on a socket, with nothing for an error and for the
-- end of the connection.
pub record Ready : Type 0 where
  pub accept : Option (Option ℕ)
  pub recvfrom : Option (Option (ℕ × List ℕ))
  pub is_set : ℕ → Bool
  pub recv_bytes : ℕ → Option (List ℕ)

abbrev Outcome : Type 0
Outcome = Bridge × List Effect

-- `uint32_t` counters.
abbrev pub add : ℕ → ℕ → ℕ
add count n = (count + n) % 2 ^ 32

abbrev pub to_uart : List ℕ → Bridge → Outcome
to_uart bytes b =
    (record b { uart_tx_count = add b.uart_tx_count (length bytes) }, uart_write_bytes bytes ∷ [])

unfoldable pub on_accept : Option (Option ℕ) → Bridge → Outcome
on_accept none b = (b, [])
on_accept (some none) b = (record b { tcp_client_sock = none }, [])
on_accept (some (some sock)) b = (record b { tcp_client_sock = some sock }, accepted sock ∷ [])

-- A datagram without bytes sets the address too.
unfoldable pub on_udp : Option (Option (ℕ × List ℕ)) → Bridge → Outcome
on_udp none b = (b, [])
on_udp (some none) b = (b, [])
on_udp (some (some (peer, bytes))) b =
    let b' : Bridge = record b { udp_peer_addr = some peer } in
    if ltb 0 (length bytes) then to_uart bytes b' else (b', [])

unfoldable pub on_received : (sock : ℕ) → Option (List ℕ) → Bridge → Outcome
on_received sock none b = (record b { tcp_client_sock = none }, close sock ∷ [])
on_received sock (some bytes) b = to_uart bytes b

abbrev pub before : List Effect → Outcome → Outcome
before es (b, es') = (b, es ++ es')

unfoldable pub on_tcp : Ready → Bridge → Outcome
unfolding on_received
on_tcp ready b = elim b.tcp_client_sock [
  | none ↦ (b, [])
  | some sock ↦
      if ready.is_set sock
      then before (recv sock ∷ []) (on_received sock (ready.recv_bytes sock) b)
      else (b, [])
]

abbrev pub chain : Outcome → (Bridge → Outcome) → Outcome
chain (b, es) stage = before es (stage b)

-- A round of `net_uart_task` in which `select` has found something, without a step of the other task
-- in between: `uart_rx_task` may close `tcp_client_sock` behind the test here, which is not modelled.
unfoldable pub net_round : Ready → Bridge → Outcome
unfolding on_accept on_udp on_tcp
net_round ready b = chain (chain (on_accept ready.accept b) (on_udp ready.recvfrom)) (on_tcp ready)

-- The types that are counted.
pub data UartEvent : Type 0 where
  uart_fifo_ovf uart_frame_err uart_buffer_full other : UartEvent

unfoldable pub count_event : UartEvent → Bridge → Bridge
count_event uart_fifo_ovf b = record b { uart_overrun_cnt = add b.uart_overrun_cnt 1 }
count_event uart_frame_err b = record b { uart_errors = add b.uart_errors 1 }
count_event uart_buffer_full b = record b { uart_queue_full_cnt = add b.uart_queue_full_cnt 1 }
count_event other b = b

-- An event: its type; what `uart_read_bytes` gives, or nothing for its error, -1; and whether `send`
-- and `sendto` fail.
pub record UartReport : Type 0 where
  pub event : UartEvent
  pub bytes : Option (List ℕ)
  pub send_fails : Bool
  pub sendto_fails : Bool

unfoldable pub to_tcp : List ℕ → (fails : Bool) → Bridge → Outcome
to_tcp bytes fails b = elim b.tcp_client_sock [
  | none ↦ (b, [])
  | some sock ↦
      if fails
      then (record b { tcp_client_sock = none }, send sock bytes ∷ close sock ∷ [])
      else (b, send sock bytes ∷ [])
]

unfoldable pub to_udp : List ℕ → (fails : Bool) → Bridge → Outcome
to_udp bytes fails b = elim b.udp_peer_addr [
  | none ↦ (b, [])
  | some peer ↦ (if fails then record b { udp_peer_addr = none } else b, sendto peer bytes ∷ [])
]

unfoldable pub on_bytes : UartReport → List ℕ → Bridge → Outcome
unfolding to_tcp to_udp
on_bytes report bytes b =
    if ltb 0 (length bytes)
    then before (http_term_broadcast_data bytes ∷ []) (
        chain
          (chain
            (to_tcp bytes report.send_fails
              (record b { uart_rx_count = add b.uart_rx_count (length bytes) }))
            (to_udp bytes report.sendto_fails))
          (λ b'. (record b' { bufpos = pos 0 }, [])))
    else (record b { bufpos = pos 0 }, [])

abbrev pub on_read : UartReport → Option (List ℕ) → Bridge → Outcome
on_read report none b = (record b { bufpos = negsuc 0 }, [])
on_read report (some bytes) b = on_bytes report bytes b

-- An event in the loop of `uart_rx_task`, without a step of `net_uart_task` in between.
unfoldable pub uart_round : UartReport → Bridge → Outcome
unfolding count_event on_bytes
uart_round report b =
    before (uart_read_bytes b.bufpos ∷ [])
      (on_read report report.bytes (count_event report.event b))
