-- ===== src/Platform/AccessPoint.antt =====
-- When the access point that the probe knows is not found, main/platform.c opens one of its own.
use blackmagic_espidf.Base.{
  ℕ, zero, suc, ◌/◌, ◌%◌, ◌≡◌, ◌≤◌, refl, Bool, true, none, some, List, [], ◌∷◌, ◌++◌, length,
  length-append, arith, ap,
}
use blackmagic_espidf.Base.Text.{codes, hex_digit}
use blackmagic_espidf.Platform.Wifi.{
  SystemEvent, mode_ap, WifiCall, wifi_disconnect, WifiStep, unchecked, error_check, Radio,
  hex_text, chipid, done, WifiConfig, perform, network_name, wifi_init_softap, event_handler,
}

length-hex_text : (k n : ℕ) → length (hex_text k n) ≤ k
unfolding hex_text
length-hex_text zero n = omega arith
length-hex_text (suc k) n =
    let short : length (hex_text k (n / 16)) ≤ k = length-hex_text k (n / 16) in
    let longer = length-append (hex_text k (n / 16)) (hex_digit (n % 16) ∷ []) in ground arith

-- A name that is made up fits the 32 bytes of `ssid`.
network_name-fits : (config : WifiConfig) → config.named ≡ none → length (network_name config) ≤ 32
unfolding hex_text
network_name-fits config made_up =
    let digits = length-hex_text 8 (chipid config.mac) in
    let name = length-append (codes "blackmagic_") (hex_text 8 (chipid config.mac)) in
    let fits : length (codes "blackmagic_" ++ hex_text 8 (chipid config.mac)) ≤ 32 = omega arith in
    rw made_up fits

module _ (is_ok : WifiCall → Radio → Bool) (config : WifiConfig) where
  -- What the calls leave where all succeed; an unchecked one of an AreQuiet list changes nothing.
  abbrev all_done : List WifiStep → Radio → Radio
  unfolding done
  all_done [] r = r
  all_done (unchecked c ∷ ss) r = all_done ss r
  all_done (error_check c ∷ ss) r = all_done ss (done c r)

  abbrev AreQuiet : List WifiStep → Type 0
  unfolding done
  AreQuiet [] = Unit
  AreQuiet (unchecked c ∷ ss) = ((r : Radio) → done c r ≡ r) × AreQuiet ss
  AreQuiet (error_check c ∷ ss) = AreQuiet ss

  perform-all_done :
      (ss : List WifiStep) (r r' : Radio)
      → AreQuiet ss
      → perform is_ok ss r ≡ some r'
      → r' ≡ all_done ss r
  unfolding perform
  perform-all_done [] r r' quiet p = grind arith
  perform-all_done (unchecked c ∷ ss) r r' quiet p =
      let same : done c r ≡ r = quiet.0 r in perform-all_done ss r r' quiet.1 (ground arith)
  perform-all_done (error_check c ∷ ss) r r' quiet p =
      perform-all_done ss (done c r) r' quiet (ground arith)

  -- The device is the access point of its name.
  abbrev pub IsOpen : Radio → Type 0
  IsOpen r = (r.mode ≡ mode_ap) × (r.ssid ≡ network_name config)

  softap-AreQuiet : AreQuiet (wifi_init_softap config)
  unfolding done
  softap-AreQuiet = ((λ s. refl), ((λ s. refl), tt))

  wifi_init_softap-opens :
      (r r' : Radio) → perform is_ok (wifi_init_softap config) r ≡ some r' → IsOpen r'
  unfolding done
  wifi_init_softap-opens r r' p =
      let e : r' ≡ all_done (wifi_init_softap config) r =
        perform-all_done (wifi_init_softap config) r r' softap-AreQuiet p in
      (ap (λ s. s.mode) e, ap (λ s. s.ssid) e)

  -- The calls in `ESP_ERROR_CHECK` succeed.
  abbrev pub AreOk : List WifiStep → Type 0
  AreOk [] = Unit
  AreOk (unchecked c ∷ ss) = AreOk ss
  AreOk (error_check c ∷ ss) = ((r : Radio) → is_ok c r ≡ true) × AreOk ss

  -- An event other than the lost access point changes neither the mode nor the name, and none stops
  -- the device while the calls that open the access point succeed.
  data IsHandled (e : SystemEvent) : Type 0 where
    opens :
        event_handler config e ≡ unchecked wifi_disconnect ∷ (wifi_init_softap config) → IsHandled e
    quiet :
        AreOk (event_handler config e)
        → AreQuiet (event_handler config e)
        → ((r : Radio) → all_done (event_handler config e) r ≡ r)
        → IsHandled e
