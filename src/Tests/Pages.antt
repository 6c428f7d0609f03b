-- ===== src/Tests/Pages.antt =====
-- The pages' requests for a rate and for an update on concrete inputs.
use blackmagic_espidf.Base.{
  ℕ, if◌then◌else◌, ◌≡◌, refl, Bool, true, false, ◌&&◌, Option, none, some, List, [], ◌∷◌, drop,
  arith,
}
use blackmagic_espidf.Base.Int.{ℤ, pos, negsuc}
use blackmagic_espidf.Base.Text.{codes, str_eq}
use blackmagic_espidf.Platform.Decimal.{decimal_of, atoi}
use blackmagic_espidf.Platform.Baud.{Device, baudrate, platform_set_baud, cgi_baud}
use blackmagic_espidf.Platform.Rates.{
  Op, command, page_baud, page_break, restart, Wish, Runs, apply_all, wished_all, apply_all-refines,
}
use blackmagic_espidf.Web.Rate.{on_setbaud, on_setbaud-shows}
use blackmagic_espidf.Web.Upgrade.{
  Event, load, upgrade, ready, unloaded, on_event, on_events, call_handler, on_uploaded, do_upgrade,
  do_reboot,
}
use blackmagic_espidf.Web.Rebooting.{asks_reboot, is_upload, says_success, on_events-reboots}

abbrev fresh : Device
fresh = record {
  rate0 = 230400;
  rate1 = 230400;
  uartbaud = none;
  committed = none;
  tx_power = pos 78;
}

-- 1200 by the command, a break, 9600 by the page, and a restart.
abbrev uses : List Op
uses =
    command (codes "setbaud" ∷ codes "1200" ∷ [])
    ∷ page_break false
    ∷ page_baud false (some (codes "9600"))
    ∷ restart true
    ∷ []

abbrev unasked : Wish
unasked = record { last = none; stored = none }

fresh-Runs : Runs (λ b. b) atoi (λ p q. p) fresh unasked
fresh-Runs = record { port0 = refl; port1 = refl; kept = refl; sure = refl }

apply_all-refines_example :
    Runs
      (λ b. b)
      atoi
      (λ p q. p)
      (apply_all (λ b. b) atoi (λ p q. p) uses fresh)
      (wished_all (λ b. b) atoi (λ p q. p) uses unasked)
    × ((cgi_baud
          (λ b. b)
          atoi
          (λ p q. p)
          false
          none
          (apply_all (λ b. b) atoi (λ p q. p) uses fresh)).1
        ≡ baudrate 9600 ∷ [])
unfolding wished_all atoi
apply_all-refines_example =
    apply_all-refines (λ b. b) atoi (λ p q. p) (λ baud. refl) uses fresh unasked fresh-Runs

-- A server and a page that read what is between the fixed texts.
abbrev find_arg : List ℕ → Option (List ℕ)
find_arg args = some (drop 4 args)

abbrev number_of : ℤ → Option ℕ
number_of (pos n) = some n
number_of (negsuc n) = none

abbrev baudrate_of : List ℕ → Option ℕ
baudrate_of body = number_of (atoi (drop 13 body))

abbrev parse_int : List ℕ → Option ℤ
parse_int text = some (atoi text)

on_setbaud-shows_example :
    on_setbaud (λ b. b) (λ p q. p) find_arg baudrate_of parse_int (some (codes "9600 baud")) fresh
    ≡ (platform_set_baud (λ b. b) atoi (λ p q. p) 9600 fresh, some 9600)
unfolding atoi decimal_of
on_setbaud-shows_example =
    on_setbaud-shows (λ b. b) (λ p q. p) find_arg baudrate_of parse_int b'9' (codes "600 baud") 9600
      fresh refl (omega arith) (omega arith) refl refl

-- The answer of the upload, an object with the field, or not.
abbrev success : List ℕ → Option Bool
success text = if str_eq text (codes "{\"success\": true}") then some true else some false

on_events-reboots_example :
    let events : List Event = load ∷ upgrade true ∷ [] in
    let answer : Event = ready 4 200 (codes "{\"success\": true}") in
    let s = on_events success events unloaded in
    asks_reboot (on_event success answer s).1 ≡ (is_upload s.request && says_success success answer)
on_events-reboots_example =
    on_events-reboots success (load ∷ upgrade true ∷ []) (ready 4 200 (codes "{\"success\": true}"))

reboot_test :
    asks_reboot
      (on_event success
        (ready 4 200 (codes "{\"success\": true}"))
        (on_events success (load ∷ upgrade true ∷ []) unloaded)).1
    ≡ true
unfolding on_event on_events call_handler on_uploaded do_upgrade do_reboot str_eq
reboot_test = refl

refused_test :
    asks_reboot
      (on_event success (ready 4 400 []) (on_events success (load ∷ upgrade true ∷ []) unloaded)).1
    ≡ false
unfolding on_event on_events do_upgrade
refused_test = refl
