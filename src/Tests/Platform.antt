-- ===== src/Tests/Platform.antt =====
-- The serial bridge, the frequency and the exceptions on concrete inputs.
use blackmagic_espidf.Base.{◌≡◌, refl, true, false, none, some, List, [], ◌∷◌, inl, arith}
use blackmagic_espidf.Base.Int.{pos}
use blackmagic_espidf.Exception.{
  Code, skip, act, raise, try_catch, raise_exception, returned, aborted, run,
}
use blackmagic_espidf.Exception.Scopes.{eval, in_frames, run_refines}
use blackmagic_espidf.Platform.Frequency.{platform_max_frequency_get}
use blackmagic_espidf.Platform.Serial.{Bridge, uart_fifo_ovf}
use blackmagic_espidf.Platform.Wifi.{mode_sta, Radio, WifiConfig}
use blackmagic_espidf.Platform.Counters.{Counted}
use blackmagic_espidf.Platform.Turns.{turns-Counted}
use blackmagic_espidf.Platform.Rounds.{Turn, net, uart, turns}

-- The inner handler is for another type, and what it guards is left too.
abbrev nested : Code
nested =
    try_catch 1 (act 10 (try_catch 2 (act 11 (raise 1)) (λ type'. act 12 skip)))
      (λ type'. act type' skip)

nested_test : run nested [] ≡ returned (10 ∷ 11 ∷ 1 ∷ []) []
unfolding run raise_exception
nested_test = refl

unhandled_test : run (try_catch 2 (raise 1) (λ type'. skip)) [] ≡ aborted []
unfolding run raise_exception
unhandled_test = refl

run_refines_example : run nested (1 ∷ []) ≡ in_frames (1 ∷ []) (eval nested)
run_refines_example = run_refines nested (1 ∷ [])

-- 1 MHz: the delay of one cycle is 1.096 MHz, above what was asked for.
above_test : platform_max_frequency_get 1 ≡ 1095890
unfolding platform_max_frequency_get
above_test = refl

abbrev bridge : Bridge
bridge = record {
  tcp_client_sock = none;
  udp_peer_addr = none;
  uart_overrun_cnt = 0;
  uart_errors = 0;
  uart_queue_full_cnt = 0;
  uart_rx_count = 0;
  uart_tx_count = 0;
  bufpos = pos 0;
}

-- A client connects; bytes arrive from the serial line, and their send fails; then bytes come from it.
abbrev lost : List Turn
lost =
    net (record {
      accept = some (some 5);
      recvfrom = none;
      is_set = λ n. false;
      recv_bytes = λ n. none;
    })
    ∷ uart (record {
      event = uart_fifo_ovf;
      bytes = some (1 ∷ 2 ∷ []);
      send_fails = true;
      sendto_fails = false;
    })
    ∷ net (record {
      accept = none;
      recvfrom = none;
      is_set = λ n. true;
      recv_bytes = λ n. some (3 ∷ []);
    })
    ∷ []

abbrev counting : Bridge
counting = record {
  tcp_client_sock = none;
  udp_peer_addr = some 9;
  uart_overrun_cnt = 0;
  uart_errors = 0;
  uart_queue_full_cnt = 0;
  uart_rx_count = 0xffff_ffff;
  uart_tx_count = 5;
  bufpos = pos 0;
}

-- Three bytes wrap a counter round.
abbrev three_bytes : List Turn
three_bytes =
    uart (record {
      event = uart_fifo_ovf;
      bytes = some (1 ∷ 2 ∷ 3 ∷ []);
      send_fails = false;
      sendto_fails = false;
    })
    ∷ []

turns-Counted_example : Counted counting (turns three_bytes counting)
turns-Counted_example = turns-Counted three_bytes counting (record {
  tx = omega arith;
  rx = omega arith;
  overruns = omega arith;
  errors = omega arith;
  full = omega arith;
  position = inl refl;
})

-- A station that connects, does not find its access point, and is told to have disconnected.
abbrev station : Radio
station = record { mode = mode_sta; ssid = [] }

abbrev made_up : WifiConfig
made_up = record {
  named = none;
  mac = 0x5e ∷ 0xcf ∷ 0x7f ∷ 2 ∷ 3 ∷ 4 ∷ [];
  hostname = false;
  no_base_mac = false;
}
