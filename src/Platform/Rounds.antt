-- ===== src/Platform/Rounds.antt =====
-- The rounds of `net_uart_task` and `uart_rx_task` of main/platform.c in any order. A round is taken
-- whole. The tasks share `tcp_client_sock` without a lock, so that one may close the socket in the
-- middle of a round of the other; what a round does with the socket then is not modelled. The counters
-- have one writer each, and do not depend on this.
use blackmagic_espidf.Base.{List, [], ◌∷◌}
use blackmagic_espidf.Platform.Serial.{
  Bridge, Effect, Ready, UartReport, chain, net_round, uart_round,
}

-- A round of one task or of the other.
pub data Turn : Type 0 where
  net : Ready → Turn
  uart : UartReport → Turn

unfoldable pub turns : List Turn → Bridge → Bridge × List Effect
turns [] b = (b, [])
turns (net ready ∷ rest) b = chain (net_round ready b) (turns rest)
turns (uart report ∷ rest) b = chain (uart_round report b) (turns rest)
