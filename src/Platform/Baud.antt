-- ===== src/Platform/Baud.antt =====
-- The rate of the target's serial port: `platform_set_baud`, `cmd_setbaud`, `uart_send_break` and the
-- start in `app_main` of main/platform.c, `cgi_baud`, `cgi_uart_break` and `cgi_tx_power` of main/http.c.
use blackmagic_espidf.Base.{
  ℕ, ◌-◌, ◌/◌, ◌%◌, ◌^◌, Bool, true, false, Option, none, some, List, [], ◌∷◌, length, get_or, ◌==◌,
  ltb, if◌then◌else◌,
}
use blackmagic_espidf.Base.Int.{ℤ, pos, negsuc, is_zero}

-- The rates that the two ports run at; what is stored as `uartbaud`, and what of it is sure to
-- outlast a restart (`nvs_commit` is never called); and the power of the radio.
pub record Device : Type 0 where
  pub rate0 : ℕ
  pub rate1 : ℕ
  pub uartbaud : Option ℕ
  pub committed : Option ℕ
  pub tx_power : ℤ

-- What a caller is told: `gdb_outf` of the command, the body of a page.
pub data Told : Type 0 where
  current_baud : ℕ → Told
  setting_baud : ℤ → Told
  baudrate : ℕ → Told
  txpower : ℕ → Told
  no_text : Told

-- What is done to the line of port 0.
pub data Line : Type 0 where
  wait_tx_done : Line
  write_bytes : (rate : ℕ) → List ℕ → Line

-- An `int` as a `uint32_t`.
abbrev pub to_uint32 : ℤ → ℕ
to_uint32 (pos n) = n % 2 ^ 32
to_uint32 (negsuc n) = 2 ^ 32 - 1 - n % 2 ^ 32

-- The rate where none is stored.
abbrev pub or_default : Option ℕ → ℕ
or_default none = 230400
or_default (some baud) = baud

-- `actual` is the rate at which a port runs that is set to a rate, `atoi` is C's, and `power_set`
-- is the power behind `esp_wifi_set_max_tx_power`.
module _ (actual : ℕ → ℕ) (atoi : List ℕ → ℤ) (power_set : ℤ → ℤ → ℤ) where
  unfoldable pub platform_set_baud : ℕ → Device → Device
  platform_set_baud baud d = record d {
    rate0 = actual baud;
    rate1 = actual baud;
    uartbaud = some baud;
  }

  unfoldable pub cmd_setbaud : List (List ℕ) → Device → Device × List Told
  unfolding platform_set_baud
  cmd_setbaud argv d =
      if length argv == 1
      then (d, current_baud d.rate0 ∷ [])
      else if length argv == 2
      then (let baud = atoi (get_or argv 1 []) in
          (platform_set_baud (to_uint32 baud) d, setting_baud baud ∷ []))
      else (d, [])

  unfoldable pub uart_send_break : Device → Device × List Line
  uart_send_break d =
      let baud = d.rate0 in
      let slow = actual (baud / 2) in
      (
        record d { rate0 = actual baud },
        wait_tx_done ∷ write_bytes slow (0 ∷ []) ∷ wait_tx_done ∷ [],
      )

  -- `app_main`, with what `nvs_get_u32` finds.
  unfoldable pub restore_baud : Device → Device
  restore_baud d =
      let baud = or_default d.uartbaud in record d { rate0 = actual baud; rate1 = actual baud }

  -- `httpdFindArg` gives the value of `set`, or nothing where it is not there.
  unfoldable pub cgi_baud : (closed : Bool) → (set : Option (List ℕ)) → Device → Device × List Told
  unfolding platform_set_baud
  cgi_baud true set d = (d, [])
  cgi_baud false set d = let d' = asked set in (d', baudrate d'.rate0 ∷ [])
    where
      asked : Option (List ℕ) → Device
      asked none = d
      asked (some value) =
          if ltb 0 (length value)
          then (if is_zero (atoi value) then d else platform_set_baud (to_uint32 (atoi value)) d)
          else d

  unfoldable pub cgi_tx_power :
      (closed : Bool) → (set : Option (List ℕ)) → Device → Device × List Told
  cgi_tx_power true set d = (d, [])
  cgi_tx_power false set d = let d' = asked set in (d', txpower (to_uint32 d'.tx_power) ∷ [])
    where
      asked : Option (List ℕ) → Device
      asked none = d
      asked (some value) =
          if ltb 0 (length value)
          then record d { tx_power = power_set (atoi value) d.tx_power }
          else d

  unfoldable pub cgi_uart_break : (closed : Bool) → Device → Device × List Told × List Line
  unfolding uart_send_break
  cgi_uart_break true d = (d, [], [])
  cgi_uart_break false d = let (d', lines) = uart_send_break d in (d', no_text ∷ [], lines)
