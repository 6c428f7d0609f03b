-- ===== src/Platform/Rates.antt =====
-- The rate of the serial port over commands, requests, breaks and restarts, main/platform.c and
-- main/http.c.
use blackmagic_espidf.Base.{
  ℕ, ◌≡◌, refl, ap, ◌∙◌, Bool, true, false, Option, none, some, List, [], ◌∷◌, length, get_or, ◌==◌,
  ltb, if◌then◌else◌, arith,
}
use blackmagic_espidf.Base.Int.{ℤ, is_zero}
use blackmagic_espidf.Platform.Baud.{
  Device, Told, current_baud, setting_baud, baudrate, to_uint32, or_default, platform_set_baud,
  cmd_setbaud, uart_send_break, restore_baud, cgi_baud, cgi_tx_power, cgi_uart_break,
}

-- What the users of the probe do, and what happens to it.
pub data Op : Type 0 where
  command : (argv : List (List ℕ)) → Op
  page_baud page_power : (closed : Bool) (set : Option (List ℕ)) → Op
  page_break : (closed : Bool) → Op
  -- `kept`: what was set last has been written to the flash.
  restart : (kept : Bool) → Op

-- The rate that was asked for last, and the one that is sure to outlast a restart.
pub record Wish : Type 0 where
  pub last : Option ℕ
  pub stored : Option ℕ

module _ (actual : ℕ → ℕ) (atoi : List ℕ → ℤ) (power_set : ℤ → ℤ → ℤ) where
  -- The code.
  unfoldable pub apply : Op → Device → Device
  unfolding cmd_setbaud cgi_baud cgi_tx_power cgi_uart_break
  apply (command argv) d = (cmd_setbaud actual atoi power_set argv d).0
  apply (page_baud closed set) d = (cgi_baud actual atoi power_set closed set d).0
  apply (page_power closed set) d = (cgi_tx_power actual atoi power_set closed set d).0
  apply (page_break closed) d = (cgi_uart_break actual atoi power_set closed d).0
  apply (restart kept) d =
      restore_baud actual atoi power_set (if kept then d else record d { uartbaud = d.committed })

  unfoldable pub apply_all : List Op → Device → Device
  unfolding apply
  apply_all [] d = d
  apply_all (op ∷ ops) d = apply_all ops (apply op d)

  -- The rate that an operation asks for.
  abbrev of_page : Option (List ℕ) → Option ℕ
  of_page none = none
  of_page (some value) =
      if ltb 0 (length value)
      then (if is_zero (atoi value) then none else some (to_uint32 (atoi value)))
      else none

  unfoldable pub asked : Op → Option ℕ
  asked (command argv) =
      if length argv == 2 then some (to_uint32 (atoi (get_or argv 1 []))) else none
  asked (page_baud true set) = none
  asked (page_baud false set) = of_page set
  asked (page_power closed set) = none
  asked (page_break closed) = none
  asked (restart kept) = none

  -- The wish behind an operation that asks for a rate, or for none.
  abbrev with_rate : Option ℕ → Wish → Wish
  with_rate none w = w
  with_rate (some baud) w = record w { last = some baud }

  abbrev pub wished : Op → Wish → Wish
  wished (restart true) w = w
  wished (restart false) w = record w { last = w.stored }
  wished op w = with_rate (asked op) w

  unfoldable pub wished_all : List Op → Wish → Wish
  unfolding asked
  wished_all [] w = w
  wished_all (op ∷ ops) w = wished_all ops (wished op w)

  -- Both ports run at the rate that was asked for last.
  pub record Runs (d : Device) (w : Wish) : Type 0 where
    pub port0 : d.rate0 ≡ actual (or_default w.last)
    pub port1 : d.rate1 ≡ actual (or_default w.last)
    pub kept : d.uartbaud ≡ w.last
    pub sure : d.committed ≡ w.stored

  set-Runs :
      (baud : ℕ) (d : Device) (w : Wish)
      → Runs d w
      → Runs (platform_set_baud actual atoi power_set baud d) (record w { last = some baud })
  unfolding platform_set_baud
  set-Runs baud d w r = record { port0 = refl; port1 = refl; kept = refl; sure = r.sure }

  break-Runs :
      ((baud : ℕ) → actual (actual baud) ≡ actual baud)
      → (d : Device) (w : Wish) → Runs d w
      → Runs (uart_send_break actual atoi power_set d).0 w
  unfolding uart_send_break
  break-Runs stable d w r = record {
    port0 = ap actual r.port0 ∙ stable (or_default w.last);
    port1 = r.port1;
    kept = r.kept;
    sure = r.sure;
  }

  restore-Runs :
      (d : Device) (w : Wish)
      → d.uartbaud ≡ w.last
      → d.committed ≡ w.stored
      → Runs (restore_baud actual atoi power_set d) w
  unfolding restore_baud
  restore-Runs d w kept sure = record {
    port0 = ap (λ b. actual (or_default b)) kept;
    port1 = ap (λ b. actual (or_default b)) kept;
    kept = kept;
    sure = sure;
  }

  command-Runs :
      (argv : List (List ℕ)) (d : Device) (w : Wish)
      → Runs d w
      → (one two : Bool) → (one ≡ true → two ≡ false)
      → let o : Device × List Told =
          if one
          then (d, current_baud d.rate0 ∷ [])
          else if two
          then (
            platform_set_baud actual atoi power_set (to_uint32 (atoi (get_or argv 1 []))) d,
            setting_baud (atoi (get_or argv 1 [])) ∷ [],
          )
          else (d, []) in
        Runs o.0 (with_rate (if two then some (to_uint32 (atoi (get_or argv 1 []))) else none) w)
  command-Runs argv d w r true true apart = let h : true ≡ false = apart refl in absurd cc
  command-Runs argv d w r true false apart = r
  command-Runs argv d w r false true apart = set-Runs _ d w r
  command-Runs argv d w r false false apart = r

  page-Runs :
      (value : List ℕ) (d : Device) (w : Wish)
      → Runs d w
      → (some_text zero_rate : Bool)
      → Runs
          (if some_text
            then (if zero_rate
                then d
                else platform_set_baud actual atoi power_set (to_uint32 (atoi value)) d)
            else d)
          (with_rate
            (if some_text
              then (if zero_rate then none else some (to_uint32 (atoi value)))
              else none)
            w)
  page-Runs value d w r true true = r
  page-Runs value d w r true false = set-Runs _ d w r
  page-Runs value d w r false zero_rate = r

  power-Runs :
      (d : Device) (w : Wish) (power : ℤ) (b : Bool)
      → Runs d w
      → Runs (if b then record d { tx_power = power } else d) w
  power-Runs d w power true r = record {
    port0 = r.port0;
    port1 = r.port1;
    kept = r.kept;
    sure = r.sure;
  }
  power-Runs d w power false r = r

  apply-Runs :
      ((baud : ℕ) → actual (actual baud) ≡ actual baud)
      → (op : Op) (d : Device) (w : Wish) → Runs d w
      → Runs (apply op d) (wished op w)
  unfolding apply asked cmd_setbaud cgi_baud cgi_tx_power cgi_uart_break
  apply-Runs stable (command argv) d w r =
      command-Runs argv d w r (length argv == 1) (length argv == 2) (λ e. ground (arith, e))
  apply-Runs stable (page_baud true set) d w r = r
  apply-Runs stable (page_baud false none) d w r = r
  apply-Runs stable (page_baud false (some value)) d w r =
      page-Runs value d w r (ltb 0 (length value)) (is_zero (atoi value))
  apply-Runs stable (page_power true set) d w r = r
  apply-Runs stable (page_power false none) d w r = r
  apply-Runs stable (page_power false (some value)) d w r =
      power-Runs d w _ (ltb 0 (length value)) r
  apply-Runs stable (page_break true) d w r = r
  apply-Runs stable (page_break false) d w r = break-Runs stable d w r
  apply-Runs stable (restart true) d w r = restore-Runs d w r.kept r.sure
  apply-Runs stable (restart false) d w r =
      restore-Runs (record d { uartbaud = d.committed }) (record w { last = w.stored }) r.sure
        r.sure

  apply_all-Runs :
      ((baud : ℕ) → actual (actual baud) ≡ actual baud)
      → (ops : List Op) (d : Device) (w : Wish) → Runs d w
      → Runs (apply_all ops d) (wished_all ops w)
  unfolding apply_all wished_all
  apply_all-Runs stable [] d w r = r
  apply_all-Runs stable (op ∷ ops) d w r =
      apply_all-Runs stable ops (apply op d) (wished op w) (apply-Runs stable op d w r)

  -- Over any commands, requests, breaks and restarts, both ports run at the rate that was asked for
  -- last, or the default, and the page tells it: a break puts the rate back, a request without a
  -- number or for 0 changes nothing, and a restart that finds the last rate in the flash goes on with
  -- it. Condition: a port that is set to the rate at which it runs goes on at this rate.
  pub apply_all-refines :
      ((baud : ℕ) → actual (actual baud) ≡ actual baud)
      → (ops : List Op) (d : Device) (w : Wish) → Runs d w
      → Runs (apply_all ops d) (wished_all ops w)
        × ((cgi_baud actual atoi power_set false none (apply_all ops d)).1
            ≡ baudrate (actual (or_default (wished_all ops w).last)) ∷ [])
  unfolding cgi_baud
  apply_all-refines stable ops d w r =
      let r' = apply_all-Runs stable ops d w r in (r', ap (λ n. baudrate n ∷ []) r'.port0)
