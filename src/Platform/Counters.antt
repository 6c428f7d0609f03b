-- ===== src/Platform/Counters.antt =====
-- The counters of the serial bridge, main/platform.c, which the status page shows.
use blackmagic_espidf.Base.{
  ℕ, ◌+◌, ◌%◌, ◌^◌, ◌<◌, ◌≡◌, ◌⊎◌, Bool, true, false, Option, List, [], ◌∷◌, ◌++◌, length,
  if◌then◌else◌, arith,
}
use blackmagic_espidf.Base.Int.{pos, negsuc}
use blackmagic_espidf.Platform.Serial.{
  Bridge, Effect, accepted, recv, send, close, sendto, uart_write_bytes, uart_read_bytes,
  http_term_broadcast_data, to_uart, chain,
}

-- The bytes written to the port, and those of the port that are broadcast.
unfoldable pub written : List Effect → ℕ
written [] = 0
written (uart_write_bytes bytes ∷ es) = length bytes + written es
written (e ∷ es) = written es

unfoldable pub broadcast : List Effect → ℕ
broadcast [] = 0
broadcast (http_term_broadcast_data bytes ∷ es) = length bytes + broadcast es
broadcast (e ∷ es) = broadcast es

-- The state's numbers are values of their C types, and `bufpos` is 0 or -1.
pub record InRange (b : Bridge) : Type 0 where
  pub tx : b.uart_tx_count < 2 ^ 32
  pub rx : b.uart_rx_count < 2 ^ 32
  pub overruns : b.uart_overrun_cnt < 2 ^ 32
  pub errors : b.uart_errors < 2 ^ 32
  pub full : b.uart_queue_full_cnt < 2 ^ 32
  pub position : (b.bufpos ≡ pos 0) ⊎ (b.bufpos ≡ negsuc 0)

-- What was counted is what was done.
pub record Counted (b : Bridge) (o : Bridge × List Effect) : Type 0 where
  pub range : InRange o.0
  pub tx : o.0.uart_tx_count ≡ (b.uart_tx_count + written o.1) % 2 ^ 32
  pub rx : o.0.uart_rx_count ≡ (b.uart_rx_count + broadcast o.1) % 2 ^ 32

abbrev pub IsCounted : (Bridge → Bridge × List Effect) → Type 0
IsCounted stage = (b : Bridge) → InRange b → Counted b (stage b)

pub to_uart-IsCounted : (bytes : List ℕ) → IsCounted (to_uart bytes)
unfolding written broadcast
to_uart-IsCounted bytes b r = record {
  range = record {
    tx = omega arith;
    rx = r.rx;
    overruns = r.overruns;
    errors = r.errors;
    full = r.full;
    position = r.position;
  };
  tx = omega arith;
  rx = omega (arith, r.rx);
}

written-append : (xs ys : List Effect) → written (xs ++ ys) ≡ written xs + written ys
unfolding written
written-append [] ys = omega arith
written-append (accepted sock ∷ xs) ys = written-append xs ys
written-append (recv sock ∷ xs) ys = written-append xs ys
written-append (send sock bytes ∷ xs) ys = written-append xs ys
written-append (close sock ∷ xs) ys = written-append xs ys
written-append (sendto peer bytes ∷ xs) ys = written-append xs ys
written-append (uart_write_bytes bytes ∷ xs) ys = omega (arith, written-append xs ys)
written-append (uart_read_bytes at ∷ xs) ys = written-append xs ys
written-append (http_term_broadcast_data bytes ∷ xs) ys = written-append xs ys

broadcast-append : (xs ys : List Effect) → broadcast (xs ++ ys) ≡ broadcast xs + broadcast ys
unfolding broadcast
broadcast-append [] ys = omega arith
broadcast-append (accepted sock ∷ xs) ys = broadcast-append xs ys
broadcast-append (recv sock ∷ xs) ys = broadcast-append xs ys
broadcast-append (send sock bytes ∷ xs) ys = broadcast-append xs ys
broadcast-append (close sock ∷ xs) ys = broadcast-append xs ys
broadcast-append (sendto peer bytes ∷ xs) ys = broadcast-append xs ys
broadcast-append (uart_write_bytes bytes ∷ xs) ys = broadcast-append xs ys
broadcast-append (uart_read_bytes at ∷ xs) ys = broadcast-append xs ys
broadcast-append (http_term_broadcast_data bytes ∷ xs) ys = omega (arith, broadcast-append xs ys)

-- What changes the sockets only.
pub silent :
    (b : Bridge) (sock peer : Option ℕ) (es : List Effect)
    → InRange b
    → written es ≡ 0
    → broadcast es ≡ 0
    → Counted b (record b { tcp_client_sock = sock; udp_peer_addr = peer }, es)
silent b sock peer es r w h = record {
  range = record {
    tx = r.tx;
    rx = r.rx;
    overruns = r.overruns;
    errors = r.errors;
    full = r.full;
    position = r.position;
  };
  tx = omega (arith, w, r.tx);
  rx = omega (arith, h, r.rx);
}

pub chain-Counted :
    {b : Bridge} (o : Bridge × List Effect) (stage : Bridge → Bridge × List Effect)
    → Counted b o
    → IsCounted stage
    → Counted b (chain o stage)
chain-Counted (b', es) stage c later =
    let c' = later b' c.range in
    record {
      range = c'.range;
      tx = omega (arith, c.tx, c'.tx, written-append es (stage b').1);
      rx = omega (arith, c.rx, c'.rx, broadcast-append es (stage b').1);
    }

pub if-Counted :
    {b : Bridge} (o o' : Bridge × List Effect) (k : Bool)
    → Counted b o
    → Counted b o'
    → Counted b (if k then o else o')
if-Counted o o' true c c' = c
if-Counted o o' false c c' = c'
